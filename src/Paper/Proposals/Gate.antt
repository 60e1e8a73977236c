-- ===== src/Paper/Proposals/Gate.antt =====
-- The approval gate: nothing is executed, and no portfolio changes, without an approval.
use trading_brain.Base.{
  get_elem?, ℕ, ◌≡◌, ◌⊎◌, inl, inr, refl, ap, ◌∙◌, arith, Bool, true, false, Option, none, some,
  List, [], ◌∷◌, Dict, lookup, Result, ok, err, Option-cases,
}
use trading_brain.Quant.Floats.{Floats}
use trading_brain.Paper.Portfolio.{PaperPortfolio}
use trading_brain.Paper.Proposals.{
  Status, Desk, PaperTradeProposal, ProposalError, execute_proposal, approve, reject, expire,
  propose_from_signal,
}
use trading_brain.Paper.Proposals.Actions.{
  Action, change, with_portfolios, with_portfolio, added, act, run, status_of, is_approve,
  is_execute, has_execution, has_approval_before,
}
use trading_brain.Paper.Proposals.Approval.{
  Move, act-Move, Result-cases, with_portfolio-ok, execute_proposal_lem, status_in-replace,
}

abbrev pub is_closed : Status → Bool
is_closed Status.pending = false
is_closed Status.approved = false
is_closed Status.rejected = true
is_closed Status.executed = true
is_closed Status.expired = true

-- Approved, whether or not executed since.
abbrev pub is_cleared : Option Status → Bool
is_cleared (some Status.approved) = true
is_cleared (some Status.executed) = true
is_cleared _ = false

abbrev pub is_carried_out : Option Status → Bool
is_carried_out (some Status.executed) = true
is_carried_out _ = false

module _ (num : Floats) where
  Move-is_closed :
      (n : ℕ) (a : Action num) (s s' : Option Status) (t : Status)
      → is_closed t ≡ true
      → s ≡ some t
      → Move num n a s s'
      → s' ≡ some t
  Move-is_closed n a s s' t closed was (Move.stays same) = same ∙ was
  Move-is_closed n a s s' t closed was (Move.is_proposed before after) =
      ground (arith, closed, was, before)
  Move-is_closed n a s s' t closed was (Move.is_approved here before after) =
      ground (arith, closed, was, before)
  Move-is_closed n a s s' t closed was (Move.is_executed here before after) =
      ground (arith, closed, was, before)
  Move-is_closed n a s s' t closed was (Move.is_rejected before after) =
      ground (arith, closed, was, before)
  Move-is_closed n a s s' t closed was (Move.is_expired before after) =
      ground (arith, closed, was, before)

  Move-is_carried_out :
      (n : ℕ) (a : Action num) (s s' : Option Status)
      → Move num n a s s'
      → is_carried_out s ≡ false
      → (is_carried_out s' ≡ false) ⊎ (is_execute num n a ≡ true)
  Move-is_carried_out n a s s' (Move.stays same) before = inl (ap is_carried_out same ∙ before)
  Move-is_carried_out n a s s' (Move.is_proposed was is) before = inl (ap is_carried_out is)
  Move-is_carried_out n a s s' (Move.is_approved here was is) before = inl (ap is_carried_out is)
  Move-is_carried_out n a s s' (Move.is_executed here was is) before = inr here
  Move-is_carried_out n a s s' (Move.is_rejected was is) before = inl (ap is_carried_out is)
  Move-is_carried_out n a s s' (Move.is_expired was is) before = inl (ap is_carried_out is)

  Move-is_cleared :
      (n : ℕ) (a : Action num) (s s' : Option Status)
      → Move num n a s s'
      → is_cleared s ≡ false
      → (is_cleared s' ≡ false) ⊎ ((is_approve num n a ≡ true) × (is_carried_out s' ≡ false))
  Move-is_cleared n a s s' (Move.stays same) before = inl (ap is_cleared same ∙ before)
  Move-is_cleared n a s s' (Move.is_proposed was is) before = inl (ap is_cleared is)
  Move-is_cleared n a s s' (Move.is_approved here was is) before = inr (here, ap is_carried_out is)
  Move-is_cleared n a s s' (Move.is_executed here was is) before = ground (arith, was, before)
  Move-is_cleared n a s s' (Move.is_rejected was is) before = inl (ap is_cleared is)
  Move-is_cleared n a s s' (Move.is_expired was is) before = inl (ap is_cleared is)

  -- A proposal that is rejected, executed or expired stays so, whatever calls are made.
  pub run-is_closed :
      (n : ℕ) (actions : List (Action num)) (d : Desk num) (s : Status)
      → is_closed s ≡ true
      → status_of num n d ≡ some s
      → status_of num n (run num actions d) ≡ some s
  unfolding run
  run-is_closed n [] d s closed was = was
  run-is_closed n (a ∷ actions) d s closed was =
      run-is_closed n actions (act num a d) s closed
        (Move-is_closed n a _ _ s closed was (act-Move num n a d))

  run-has_execution :
      (n : ℕ) (actions : List (Action num)) (d : Desk num)
      → is_carried_out (status_of num n d) ≡ false
      → status_of num n (run num actions d) ≡ some Status.executed
      → has_execution num n actions ≡ true
  unfolding run
  run-has_execution n [] d before after = ground (arith, before, after)
  run-has_execution n (a ∷ actions) d before after =
      elim (Move-is_carried_out n a _ _ (act-Move num n a d) before) [
        | inl not_yet ↦ ground (arith, run-has_execution n actions (act num a d) not_yet after)
        | inr now ↦ ground (arith, now)
      ]

  -- If a proposal that does not exist yet or that was not approved is executed in the end, then among the
  -- calls there is an approval of it and, after that, a call that executes it.
  pub run-has_approval_before :
      (n : ℕ) (actions : List (Action num)) (d : Desk num)
      → is_cleared (status_of num n d) ≡ false
      → status_of num n (run num actions d) ≡ some Status.executed
      → has_approval_before num n actions ≡ true
  unfolding run
  run-has_approval_before n [] d before after = ground (arith, before, after)
  run-has_approval_before n (a ∷ actions) d before after =
      elim (Move-is_cleared n a _ _ (act-Move num n a d) before) [
        | inl not_yet ↦
            ground (arith, run-has_approval_before n actions (act num a d) not_yet after)
        | inr (now, unsettled) ↦
            ground (arith, now, run-has_execution n actions (act num a d) unsettled after)
      ]

  change-portfolios :
      (m : ℕ)
      (f : PaperTradeProposal num
        → Result ProposalError (PaperTradeProposal num × Dict (PaperPortfolio num)))
      (d : Desk num)
      → ((change num m f d).portfolios ≡ d.portfolios)
        ⊎ ((old q : PaperTradeProposal num) × (ps : Dict (PaperPortfolio num)) × (f old
              ≡ ok (q, ps))
            × (status_of num m d ≡ some old.status)
            × ((change num m f d).portfolios ≡ ps)
            × (status_of num m (change num m f d) ≡ some q.status))
  unfolding change
  change-portfolios m f d = elim (Option-cases (get_elem? d.proposals m)) [
    | inl absent ↦ inl (ground (arith, absent))
    | inr (old, found) ↦ elim (Result-cases (f old)) [
      | inl (e, raised) ↦ inl (ground (arith, found, raised))
      | inr ((q, ps), returned) ↦ inr (
        old,
        q,
        ps,
        returned,
        ground (arith, found),
        ground (arith, found, returned),
        ground (arith, found, returned, status_in-replace num m m q old d.proposals found),
      )
    ]
  ]

  with_portfolios-portfolios :
      (d : Desk num) (r : Result ProposalError (PaperTradeProposal num))
      (q : PaperTradeProposal num) (ps : Dict (PaperPortfolio num))
      → with_portfolios num d r ≡ ok (q, ps)
      → ps ≡ d.portfolios
  with_portfolios-portfolios d (ok p) q ps h = ground (arith, h)
  with_portfolios-portfolios d (err e) q ps h = ground (arith, h)

  -- What is decided of a proposal leaves the portfolios alone.
  decision-portfolios :
      (m : ℕ) (f : PaperTradeProposal num → Result ProposalError (PaperTradeProposal num))
      (d : Desk num)
      → (change num m (λ q. with_portfolios num d (f q)) d).portfolios ≡ d.portfolios
  decision-portfolios m f d = elim (change-portfolios m (λ q. with_portfolios num d (f q)) d) [
    | inl same ↦ same
    | inr (old, q, ps, returned, was, portfolios, is) ↦
        portfolios ∙ with_portfolios-portfolios d (f old) q ps returned
  ]

  added-portfolios :
      (d : Desk num) (m : Result ProposalError (Option (PaperTradeProposal num)))
      → (added num d m).portfolios ≡ d.portfolios
  added-portfolios d (err e) = refl
  added-portfolios d (ok none) = refl
  added-portfolios d (ok (some q)) = refl

  -- Among the calls on proposals, the only one that changes a portfolio is the execution of one that was
  -- approved: a call either leaves every portfolio as it was, or it executes a proposal whose status
  -- before it is approved and whose status after it is executed.
  pub act-portfolios :
      (a : Action num) (d : Desk num)
      → ((act num a d).portfolios ≡ d.portfolios)
        ⊎ ((n : ℕ) × (is_execute num n a ≡ true)
            × (status_of num n d ≡ some Status.approved)
            × (status_of num n (act num a d) ≡ some Status.executed))
  unfolding act
  act-portfolios (Action.call_propose signal number asset price stop_price) d =
      elim (Option-cases (lookup number d.portfolios)) [
        | inl absent ↦ inl (ground (arith, absent))
        | inr (p, found) ↦ inl (
            ap
              (λ (o : Option (PaperPortfolio num)).
                (elim o as (λ _. Desk num) [
                  | none ↦ d
                  | some r ↦
                      added num d (propose_from_signal num signal number r asset price stop_price)
                ]).portfolios)
              found
            ∙ added-portfolios d (propose_from_signal num signal number p asset price stop_price))
      ]
  act-portfolios (Action.call_approve m now) d = inl (decision-portfolios m (approve num now) d)
  act-portfolios (Action.call_reject m now) d = inl (decision-portfolios m (reject num now) d)
  act-portfolios (Action.call_expire m now) d = inl (decision-portfolios m (expire num now) d)
  act-portfolios (Action.call_execute m fill_price fees now) d =
      elim (change-portfolios m
        (λ q. with_portfolio num d (execute_proposal num fill_price fees now d q)) d) [
          | inl same ↦ inl same
          | inr (old, q, ps, returned, was, portfolios, is) ↦
              let (p, executed) =
                with_portfolio-ok num d (execute_proposal num fill_price fees now d old) q ps
                  returned in
              let (before, after) =
                execute_proposal_lem num fill_price fees now d old q p executed in
              inr (m, ground arith, was ∙ ap some before, is ∙ ap some after)
        ]
