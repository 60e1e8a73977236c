-- ===== src/Paper/ProposalTests.antt =====
-- Proposals on concrete inputs, in whole numbers.
use trading_brain.Base.{ℕ, ◌≡◌, ◌⊎◌, refl, true, none, some, List, [], ◌∷◌, ℤ}
use trading_brain.Quant.Whole.{whole_numbers}
use trading_brain.Quant.Accounting.{apply_sell}
use trading_brain.Paper.Portfolio.{record_sell, record_order}
use trading_brain.Brain.Signals.{SignalCategory}
use trading_brain.Paper.Proposals.{
  Status, Desk, replace, draft_for, propose_from_signal, approve, execute_approved,
  execute_proposal,
}
use trading_brain.Paper.Proposals.Actions.{
  Action, change, act, run, status_of, has_approval_before, is_execute,
}
use trading_brain.Paper.Proposals.Gate.{run-is_closed, run-has_approval_before, act-portfolios}
use trading_brain.Paper.Tests.{bought}

abbrev desk : Desk whole_numbers
desk = record { portfolios = (3, bought) ∷ []; assets = 1 ∷ []; proposals = [] }

abbrev proposing : Action whole_numbers
proposing =
    Action.call_propose (record { id = 8; category = SignalCategory.exit_review }) 3 1 (ℤ.pos 9)
      none

abbrev executing : Action whole_numbers
executing = Action.call_execute 0 none (ℤ.pos 1) 7

-- The first execution comes too early and is refused.
abbrev calls : List (Action whole_numbers)
calls = proposing ∷ executing ∷ Action.call_approve 0 6 ∷ executing ∷ []

executed_in_the_end :
    status_of whole_numbers 0 (run whole_numbers calls desk) ≡ some Status.executed
unfolding run act change replace draft_for propose_from_signal approve execute_approved
    execute_proposal record_order record_sell apply_sell
executed_in_the_end = refl

run-has_approval_before_example : has_approval_before whole_numbers 0 calls ≡ true
run-has_approval_before_example =
    run-has_approval_before whole_numbers 0 calls desk refl executed_in_the_end

-- What was executed is not executed again, nor expired.
run-is_closed_example :
    status_of whole_numbers 0
      (run whole_numbers (executing ∷ Action.call_expire 0 9 ∷ []) (run whole_numbers calls desk))
    ≡ some Status.executed
run-is_closed_example =
    run-is_closed whole_numbers 0 (executing ∷ Action.call_expire 0 9 ∷ [])
      (run whole_numbers calls desk) Status.executed refl executed_in_the_end

abbrev approved_desk : Desk whole_numbers
approved_desk = run whole_numbers (proposing ∷ Action.call_approve 0 6 ∷ []) desk

act-portfolios_example :
    ((act whole_numbers executing approved_desk).portfolios ≡ approved_desk.portfolios)
    ⊎ ((n : ℕ) × (is_execute whole_numbers n executing ≡ true)
        × (status_of whole_numbers n approved_desk ≡ some Status.approved)
        × (status_of whole_numbers n (act whole_numbers executing approved_desk)
            ≡ some Status.executed))
act-portfolios_example = act-portfolios whole_numbers executing approved_desk
