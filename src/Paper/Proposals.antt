-- ===== src/Paper/Proposals.antt =====
-- The proposals and the approval gate of paper_trading/proposals.py. A proposal and a transaction are
-- named by their places in their tables, from which nothing is deleted. Texts and the log are left
-- out; a side is `buy` or `sell`, which are the two that `propose_from_signal` writes.
pub mod Actions
pub mod Approval
pub mod Gate
use trading_brain.Base.{
  get_elem?, ℕ, zero, suc, Bool, true, false, not, Option, none, some, List, [], ◌∷◌, ◌++◌, ◌==◌,
  if◌then◌else◌, any, length, Dict, lookup, insert, Result, ok, err, ◌>>=◌,
}
use trading_brain.Quant.Floats.{Floats, min_of}
use trading_brain.Quant.Accounting.{PortfolioError, PositionState, zero_of}
use trading_brain.Brain.Signals.{SignalCategory}
use trading_brain.Paper.Portfolio.{Asset, Side, PaperPortfolio, Order, state_of, record_order}

pub data Status : Type 0 where
  pending approved rejected executed expired : Status

-- `ProposalError`, `ApprovalRequiredError`, and what the accounting raises.
pub data ProposalError : Type 0 where
  not_permitted approval_required : ProposalError
  accounting : PortfolioError → ProposalError

-- `Signal`
pub record Signal : Type 0 where
  pub id : ℕ
  pub category : SignalCategory

-- `PaperTradeProposal`
pub record PaperTradeProposal (num : Floats) : Type 0 where
  pub portfolio_id : ℕ
  pub asset_id : Asset
  pub side : Side
  pub quantity : num.F
  pub reference_price : num.F
  pub stop_price : Option num.F
  pub status : Status
  pub source_signal_id : ℕ
  pub decided_at : Option ℕ
  pub executed_transaction_id : Option ℕ

pub record ProposalDraft (num : Floats) : Type 0 where
  pub side : Side
  pub quantity : num.F

-- The rows of the session that these functions read and write.
pub record Desk (num : Floats) : Type 0 where
  pub portfolios : Dict (PaperPortfolio num)
  pub assets : List Asset
  pub proposals : List (PaperTradeProposal num)

module _ {ℓ} {A : Type ℓ} where
  -- A change of the row at a place.
  unfoldable pub replace : ℕ → A → List A → List A
  replace n y [] = []
  replace zero y (x ∷ xs) = y ∷ xs
  replace (suc n) y (x ∷ xs) = x ∷ replace n y xs

-- An error of the accounting is raised as it is.
abbrev pub raised {ℓ} : {A : Type ℓ} → Result PortfolioError A → Result ProposalError A
raised (ok a) = ok a
raised (err e) = err (ProposalError.accounting e)

module _ (num : Floats) where
  abbrev pub hundredths : ℕ → num.F
  hundredths n = num.div (num.whole n) (num.whole 100)

  abbrev draft_if : Bool → Side → num.F → Option (ProposalDraft num)
  draft_if is_none side quantity =
      if is_none then none else some (record { side = side; quantity = quantity })

  -- `_draft_for`
  unfoldable pub draft_for :
      SignalCategory → Asset → num.F → PaperPortfolio num → Option (ProposalDraft num)
  draft_for category asset price p =
      let held = (state_of num asset p).quantity in
      let budget = min_of num (num.mul p.initial_cash (hundredths 5)) p.cash_balance in
      let quantity = num.div budget price in
      elim category [
        | SignalCategory.accumulate ↦ draft_if (num.le quantity (zero_of num)) Side.buy quantity
        | SignalCategory.reduce ↦
            draft_if (num.le held (zero_of num)) Side.sell (num.mul held (hundredths 25))
        | SignalCategory.exit_review ↦ draft_if (num.le held (zero_of num)) Side.sell held
        | SignalCategory.watch ↦ none
        | SignalCategory.research ↦ none
        | SignalCategory.thesis_review ↦ none
      ]

  abbrev pub proposal_of :
      Signal → ℕ → Asset → num.F → Option num.F → ProposalDraft num → PaperTradeProposal num
  proposal_of signal portfolio asset price stop_price draft = record {
    portfolio_id = portfolio;
    asset_id = asset;
    side = draft.side;
    quantity = num.round6 draft.quantity;
    reference_price = price;
    stop_price = stop_price;
    status = Status.pending;
    source_signal_id = signal.id;
    decided_at = none;
    executed_transaction_id = none;
  }

  -- `propose_from_signal`, for the portfolio of that number.
  unfoldable pub propose_from_signal :
      Signal
      → ℕ
      → PaperPortfolio num
      → Asset
      → num.F
      → Option num.F
      → Result ProposalError (Option (PaperTradeProposal num))
  unfolding draft_for
  propose_from_signal signal number p asset price stop_price =
      if num.le price (zero_of num)
      then err ProposalError.not_permitted
      else elim (draft_for signal.category asset price p) [
        | none ↦ ok none
        | some draft ↦ ok (some (proposal_of signal number asset price stop_price draft))
      ]

  -- A decision on a proposal.
  abbrev pub decided : Status → ℕ → PaperTradeProposal num → PaperTradeProposal num
  decided status now proposal = record proposal { status = status; decided_at = some now }

  -- `approve`, `reject` and `expire`
  unfoldable pub approve :
      ℕ → PaperTradeProposal num → Result ProposalError (PaperTradeProposal num)
  approve now proposal = elim proposal.status [
    | Status.pending ↦ ok (decided Status.approved now proposal)
    | Status.approved ↦ err ProposalError.not_permitted
    | Status.rejected ↦ err ProposalError.not_permitted
    | Status.executed ↦ err ProposalError.not_permitted
    | Status.expired ↦ err ProposalError.not_permitted
  ]

  unfoldable pub reject : ℕ → PaperTradeProposal num → Result ProposalError (PaperTradeProposal num)
  reject now proposal = elim proposal.status [
    | Status.pending ↦ ok (decided Status.rejected now proposal)
    | Status.approved ↦ ok (decided Status.rejected now proposal)
    | Status.rejected ↦ err ProposalError.not_permitted
    | Status.executed ↦ err ProposalError.not_permitted
    | Status.expired ↦ err ProposalError.not_permitted
  ]

  unfoldable pub expire : ℕ → PaperTradeProposal num → Result ProposalError (PaperTradeProposal num)
  expire now proposal = elim proposal.status [
    | Status.pending ↦ ok (decided Status.expired now proposal)
    | Status.approved ↦ err ProposalError.not_permitted
    | Status.rejected ↦ err ProposalError.not_permitted
    | Status.executed ↦ err ProposalError.not_permitted
    | Status.expired ↦ err ProposalError.not_permitted
  ]

  -- The order that carries out a proposal.
  abbrev pub order_of : Option num.F → num.F → ℕ → PaperTradeProposal num → Order num
  order_of fill_price fees now proposal = record {
    asset = proposal.asset_id;
    side = proposal.side;
    quantity = proposal.quantity;
    price = elim fill_price [ none ↦ proposal.reference_price | some price ↦ price ];
    fees = fees;
    executed_at = now;
  }

  -- The proposal and its portfolio after the execution.
  abbrev pub carried_out :
      PaperTradeProposal num
      → PaperPortfolio num
      → PaperPortfolio num
      → PaperTradeProposal num × PaperPortfolio num
  carried_out proposal p q = (
    record proposal {
      status = Status.executed;
      executed_transaction_id = some (length p.transactions);
    },
    q,
  )

  -- `execute_proposal`
  unfoldable pub execute_approved :
      Option num.F
      → num.F
      → ℕ
      → Desk num
      → PaperTradeProposal num
      → Result ProposalError (PaperTradeProposal num × PaperPortfolio num)
  unfolding record_order
  execute_approved fill_price fees now d proposal =
      elim (lookup proposal.portfolio_id d.portfolios) [
        | none ↦ err ProposalError.not_permitted
        | some p ↦
            if any (λ a. a == proposal.asset_id) d.assets
            then (raised (record_order num (order_of fill_price fees now proposal) p) >>= λ q.
                ok (carried_out proposal p q))
            else err ProposalError.not_permitted
      ]

  unfoldable pub execute_proposal :
      Option num.F
      → num.F
      → ℕ
      → Desk num
      → PaperTradeProposal num
      → Result ProposalError (PaperTradeProposal num × PaperPortfolio num)
  unfolding execute_approved
  execute_proposal fill_price fees now d proposal = elim proposal.status [
    | Status.approved ↦ execute_approved fill_price fees now d proposal
    | Status.pending ↦ err ProposalError.approval_required
    | Status.rejected ↦ err ProposalError.approval_required
    | Status.executed ↦ err ProposalError.approval_required
    | Status.expired ↦ err ProposalError.approval_required
  ]
