-- ===== src/Lib.antt =====
-- Trading Brain: a research and paper-trading system that never places an order. This library models
-- the parts that decide something: what an AI request may cost and reach, what a backtest may see, what
-- a paper portfolio holds, when a job runs, which data is let in, what is signalled and how well it did.
--
-- How the parts interact. A request to `AIGateway.invoke` (ai/gateway.py) passes the rate limiter, the
-- cache and the budget (ai/governance.py), the router (ai/router.py) with the registry of providers
-- (ai/provider.py), a provider, the pricing (config/ai_pricing.py) and the audit (ai/usage.py). The
-- engine (backtesting/engine.py) runs a strategy on views of the past (backtesting/market_view.py) and
-- books its fills by the accounting (quant/performance/portfolio.py) that the paper portfolio
-- (data/storage/portfolio_repository.py) uses as well, into which a proposal
-- (paper_trading/proposals.py) comes only when a person has approved it; its fills become trades of the
-- journal (paper_trading/journal.py). The worker (apps/worker/scheduler) runs jobs by their schedules
-- and the record of their runs (data/storage/job_repository.py). Price bars are
-- fetched through a registry of providers (data/ingestion/registry.py), validated on the way in
-- (data/normalization/validation.py) and stored by their natural key (data/storage/price_repository.py).
-- The stored closes, events and theses give detected changes (brain/research/change_detection.py), which
-- a scan scores and queues (brain/research/priority.py, brain/research/intelligence.py,
-- data/storage/research_queue_repository.py) and which are triggers for the language model by a policy
-- (ai/escalation.py), whose evidence is packed by ai/evidence.py. The rules
-- (brain/signals) give at most one signal for an asset, which the learning (brain/learning/metrics.py)
-- scores later by the prices that followed. Experiments cut history into folds
-- (experiments/walkforward.py), and the health page (observability/checks.py) reports on all of it.
--
-- Files:
--   Base           names of the libraries that are passed on, Boolean tests, lists, dictionaries,
--                  results, sorting, rounding, integers
--   Ai/Kinds, Ai/Schemas        ai/schemas.py: enumerations, requests, responses, constructor checks
--   Ai/Budget, Ai/Limiter, Ai/Cache   ai/governance.py: BudgetLedger, RateLimiter, ResponseCache
--   Ai/Registry    ai/provider.py: AIProviderRegistry
--   Ai/Router      ai/router.py: the tier plan (route) and _select_model
--   Ai/Pricing     config/ai_pricing.py: PricingTable.estimate and project
--   Ai/Usage       ai/usage.py: DatabaseUsageRecorder.record, usage_summary, spend_in_window
--   Ai/Gateway     ai/gateway.py: invoke, _invoke (chain, cached_or_routed), _routed_invoke
--                  (routed_invoke, within_budget, call_and_account, account), _call_provider (attempt)
--   Quant/Floats   the operations on Python floats that the code uses, as a parameter
--   Quant/Accounting   quant/performance/portfolio.py and risk.py
--   Backtest/Schemas, MarketView, Fills, Engine, WalkForward   backtesting/
--   Worker/Schedule, Worker/Scheduler   apps/worker/scheduler, data/storage/job_repository.py
--   Data/Validation    data/normalization/validation.py
--   Data/Providers     data/ingestion/registry.py: ProviderRegistry
--   Data/ResearchQueue data/storage/research_queue_repository.py
--   Paper/Portfolio    data/storage/portfolio_repository.py
--   Paper/Journal      paper_trading/journal.py
--   Paper/Proposals    paper_trading/proposals.py: proposals, their approval and execution
--   Data/Prices        data/storage/price_repository.py
--   Experiments/Folds, Slices, Audit   experiments/walkforward.py and config.py: rolling_folds,
--                  slice_bars, assert_no_future_bars, audit_dataset, ExperimentConfig, certifiable
--   Brain/Signals  brain/signals: schemas.py, with context.py, rules.py and engine.py as its children,
--                  and save_signal of data/storage/signal_repository.py
--   Brain/Changes  brain/research/change_detection.py
--   Brain/Priority, Brain/Intelligence   brain/research/priority.py and intelligence.py: score, scan
--   Brain/Learning brain/learning/metrics.py: forward_return, signal_accuracy, thesis_accuracy
--   Ai/Escalation, Ai/Evidence   ai/escalation.py, ai/evidence.py
--   Health/Status, Checks, Jobs, Report   observability/checks.py
--   Backtest/Strategies   backtesting/strategy.py, with quant/indicators/moving_average.py: sma
-- The children of a module prove what their names say; the Tests run the code on concrete inputs.
--
-- Conventions. Times are whole microseconds. Names, tickers and other texts that are only compared or
-- ordered are numbers; those whose blanks matter are lists of code points. The money of the AI layer is
-- in millionths, to which the code rounds it, the confidence of a signal in ten-thousandths and an age
-- on the health page in hundredths of a day. A date is the number of its day.
-- Other floats are an arbitrary carrier with the operations
-- of Quant/Floats: nothing is assumed of them but, in the theorems that say so, five facts about signs
-- (IsRounding) that hold of IEEE arithmetic. State that objects share is a record that the operations
-- take and return; exceptions are values of a result type.
--
-- Parameters. What a provider answers, how a provider is built, the digest of a request, the strategy,
-- the sizer, what a job does, what the probes of the health page find, rounding to four digits and every
-- reading of the clock. A query of the database is a function of the rows that it reads.
--
-- Fuel. The loop of WalkForwardValidator.split gets one turn more than the timeline has times, which is
-- enough for every positive step; that of rolling_folds two turns more than the number of the period's
-- last day, which is enough for its steps, as one is never of 0 days: those forward leave the period, and
-- those back the first date that there is. The tries of a request or of a job are bounded by the code.
--
-- Not modelled: log lines and the texts of messages, sleeping, locks (each operation is one step), the
-- database's rounding of stored columns, the HTTP API, the dashboard, migrations, the adapters of
-- network services, reports, and the components that the manifest lists as not modelled.
pub mod Base
pub mod Ai
pub mod Quant
pub mod Backtest
pub mod Worker
pub mod Data
pub mod Paper
pub mod Experiments
pub mod Brain
pub mod Health
