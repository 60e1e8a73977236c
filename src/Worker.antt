-- ===== src/Worker.antt =====
-- The worker's scheduler (apps/worker/scheduler, apps/worker/jobs/base.py) and its record of runs
-- (data/storage/job_repository.py).
pub mod Schedule
pub mod Scheduler
mod Tests
