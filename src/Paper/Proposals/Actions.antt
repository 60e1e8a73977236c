-- ===== src/Paper/Proposals/Actions.antt =====
-- Calls of paper_trading/proposals.py one after another, on the rows of the session. A call that raises
-- changes nothing.
use trading_brain.Base.{
  get_elem?, ℕ, Bool, false, ◌||◌, ◌&&◌, Option, none, some, List, [], ◌∷◌, ◌++◌, ◌==◌, Dict,
  lookup, insert, Result, ok, err, ◌>>=◌,
}
use trading_brain.Quant.Floats.{Floats}
use trading_brain.Paper.Portfolio.{Asset, PaperPortfolio}
use trading_brain.Paper.Proposals.{
  Status, ProposalError, Signal, PaperTradeProposal, Desk, replace, propose_from_signal, approve,
  reject, expire, execute_proposal,
}

-- A call: the number of the portfolio or the proposal, and the other arguments.
pub data Action (num : Floats) : Type 0 where
  call_propose : Signal → ℕ → Asset → num.F → Option num.F → Action num
  call_approve call_reject call_expire : ℕ → ℕ → Action num
  call_execute : ℕ → Option num.F → num.F → ℕ → Action num

module _ (num : Floats) where
  abbrev Changed : Type 0
  Changed = PaperTradeProposal num × Dict (PaperPortfolio num)

  unfoldable pub change :
      ℕ → (PaperTradeProposal num → Result ProposalError Changed) → Desk num → Desk num
  unfolding replace
  change n f d = elim (get_elem? d.proposals n) [
    | none ↦ d
    | some proposal ↦ elim (f proposal) [
      | err e ↦ d
      | ok (q, portfolios) ↦ record d {
        proposals = replace n q d.proposals;
        portfolios = portfolios;
      }
    ]
  ]

  abbrev pub with_portfolios :
      Desk num → Result ProposalError (PaperTradeProposal num) → Result ProposalError Changed
  with_portfolios d m = m >>= λ q. ok (q, d.portfolios)

  abbrev pub with_portfolio :
      Desk num
      → Result ProposalError (PaperTradeProposal num × PaperPortfolio num)
      → Result ProposalError Changed
  with_portfolio d m = m >>= λ r. ok (r.0, insert r.0.portfolio_id r.1 d.portfolios)

  abbrev pub added : Desk num → Result ProposalError (Option (PaperTradeProposal num)) → Desk num
  added d (err e) = d
  added d (ok none) = d
  added d (ok (some q)) = record d { proposals = d.proposals ++ q ∷ [] }

  unfoldable pub act : Action num → Desk num → Desk num
  unfolding change propose_from_signal approve reject expire execute_proposal
  act (Action.call_propose signal portfolio asset price stop_price) d =
      elim (lookup portfolio d.portfolios) [
        | none ↦ d
        | some p ↦ added d (propose_from_signal num signal portfolio p asset price stop_price)
      ]
  act (Action.call_approve n now) d = change n (λ q. with_portfolios d (approve num now q)) d
  act (Action.call_reject n now) d = change n (λ q. with_portfolios d (reject num now q)) d
  act (Action.call_expire n now) d = change n (λ q. with_portfolios d (expire num now q)) d
  act (Action.call_execute n fill_price fees now) d =
      change n (λ q. with_portfolio d (execute_proposal num fill_price fees now d q)) d

  unfoldable pub run : List (Action num) → Desk num → Desk num
  unfolding act
  run [] d = d
  run (a ∷ actions) d = run actions (act a d)

  -- The status of a proposal, if there is one of that number.
  abbrev pub status_of : ℕ → Desk num → Option Status
  status_of n d = elim (get_elem? d.proposals n) [ none ↦ none | some q ↦ some q.status ]

  abbrev pub is_approve : ℕ → Action num → Bool
  is_approve n (Action.call_approve m now) = n == m
  is_approve n _ = false

  abbrev pub is_execute : ℕ → Action num → Bool
  is_execute n (Action.call_execute m fill_price fees now) = n == m
  is_execute n _ = false

  -- Whether the actions hold an execution of a proposal, and an approval of it and later an execution.
  abbrev pub has_execution : ℕ → List (Action num) → Bool
  has_execution n [] = false
  has_execution n (a ∷ actions) = is_execute n a || has_execution n actions

  abbrev pub has_approval_before : ℕ → List (Action num) → Bool
  has_approval_before n [] = false
  has_approval_before n (a ∷ actions) =
      is_approve n a && has_execution n actions || has_approval_before n actions
