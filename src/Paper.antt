-- ===== src/Paper.antt =====
-- Paper trading: the simulated portfolio, and the proposals that a person approves.
pub mod Journal
pub mod Portfolio
pub mod Proposals
mod JournalTests
mod Tests
mod ProposalTests
