-- ===== src/Paper/Proposals/Approval.antt =====
-- The steps in the life of a proposal.
use trading_brain.Base.{
  get_elem?, ℕ, zero, suc, ◌≡◌, ◌⊎◌, inl, inr, refl, ap, sym, ◌∙◌, subst, arith, true, Option, none,
  some, List, [], ◌∷◌, ◌++◌, ◌==◌, if◌then◌else◌, Dict, lookup, Result, ok, err, Option-cases,
  Bool-cases,
}
use trading_brain.Quant.Floats.{Floats}
use trading_brain.Paper.Portfolio.{Asset, PaperPortfolio}
use trading_brain.Paper.Proposals.{
  Status, ProposalError, Signal, PaperTradeProposal, Desk, replace, propose_from_signal, approve,
  reject, expire, execute_approved, execute_proposal,
}
use trading_brain.Paper.Proposals.Actions.{
  Action, change, with_portfolios, with_portfolio, added, act, status_of, is_approve, is_execute,
}

pub Result-cases {ℓ κ} :
    {E : Type ℓ} {A : Type κ} (m : Result E A) → ((e : E) × (m ≡ err e)) ⊎ ((a : A) × (m ≡ ok a))
Result-cases (ok a) = inr (a, refl)
Result-cases (err e) = inl (e, refl)

module _ (num : Floats) where
  abbrev status_in : ℕ → List (PaperTradeProposal num) → Option Status
  status_in n xs = elim (get_elem? xs n) [ none ↦ none | some q ↦ some q.status ]

  -- The steps in the life of the proposal of a number that an action can take.
  pub data Move (n : ℕ) (a : Action num) (s s' : Option Status) : Type 0 where
    stays : s' ≡ s → Move n a s s'
    is_proposed : s ≡ none → s' ≡ some Status.pending → Move n a s s'
    is_approved :
        is_approve num n a ≡ true
        → s ≡ some Status.pending
        → s' ≡ some Status.approved
        → Move n a s s'
    is_executed :
        is_execute num n a ≡ true
        → s ≡ some Status.approved
        → s' ≡ some Status.executed
        → Move n a s s'
    is_rejected :
        (s ≡ some Status.pending) ⊎ (s ≡ some Status.approved)
        → s' ≡ some Status.rejected
        → Move n a s s'
    is_expired : s ≡ some Status.pending → s' ≡ some Status.expired → Move n a s s'

  pub status_in-replace :
      (n m : ℕ) (q old : PaperTradeProposal num) (xs : List (PaperTradeProposal num))
      → get_elem? xs m ≡ some old
      → status_in n (replace m q xs) ≡ (if n == m then some q.status else status_in n xs)
  unfolding replace
  status_in-replace n m q old [] found = ground (arith, found)
  status_in-replace zero zero q old (x ∷ xs) found = ground arith
  status_in-replace zero (suc m) q old (x ∷ xs) found = ground arith
  status_in-replace (suc n) zero q old (x ∷ xs) found = ground arith
  status_in-replace (suc n) (suc m) q old (x ∷ xs) found =
      ground (arith, status_in-replace n m q old xs found)

  status_in-append :
      (n : ℕ) (q : PaperTradeProposal num) (xs : List (PaperTradeProposal num))
      → (status_in n (xs ++ q ∷ []) ≡ status_in n xs)
        ⊎ ((status_in n xs ≡ none) × (status_in n (xs ++ q ∷ []) ≡ some q.status))
  status_in-append zero q [] = inr (refl, refl)
  status_in-append (suc n) q [] = inl refl
  status_in-append zero q (x ∷ xs) = inl refl
  status_in-append (suc n) q (x ∷ xs) = status_in-append n q xs

  -- A change of one proposal: the others stay, and that one passes from one status to another.
  change_lem :
      (n m : ℕ)
      (f : PaperTradeProposal num
        → Result ProposalError (PaperTradeProposal num × Dict (PaperPortfolio num)))
      (d : Desk num)
      → (status_of num n (change num m f d) ≡ status_of num n d)
        ⊎ ((old q : PaperTradeProposal num) × (ps : Dict (PaperPortfolio num)) × ((n == m) ≡ true)
            × (f old ≡ ok (q, ps))
            × (status_of num n d ≡ some old.status)
            × (status_of num n (change num m f d) ≡ some q.status))
  unfolding change
  change_lem n m f d = elim (Option-cases (get_elem? d.proposals m)) [
    | inl absent ↦ inl (ground (arith, absent))
    | inr (old, found) ↦ elim (Result-cases (f old)) [
      | inl (e, raised) ↦ inl (ground (arith, found, raised))
      | inr ((q, ps), returned) ↦ elim (Bool-cases (n == m)) [
        | inr other ↦
            inl (
              ground (arith, found, returned, other, status_in-replace n m q old d.proposals found))
        | inl same ↦ inr (
          old,
          q,
          ps,
          same,
          returned,
          ground (arith, found, same),
          ground (arith, found, returned, same, status_in-replace n m q old d.proposals found),
        )
      ]
    ]
  ]

  -- What each of the calls does to the status of the proposal that it is given.
  approve_lem :
      (now : ℕ) (old q : PaperTradeProposal num)
      → approve num now old ≡ ok q
      → (old.status ≡ Status.pending) × (q.status ≡ Status.approved)
  unfolding approve
  approve_lem now old q h = ground (arith, h)

  reject_lem :
      (now : ℕ) (old q : PaperTradeProposal num)
      → reject num now old ≡ ok q
      → ((old.status ≡ Status.pending) ⊎ (old.status ≡ Status.approved))
        × (q.status ≡ Status.rejected)
  unfolding reject
  reject_lem now old q h = ground (arith, h)

  expire_lem :
      (now : ℕ) (old q : PaperTradeProposal num)
      → expire num now old ≡ ok q
      → (old.status ≡ Status.pending) × (q.status ≡ Status.expired)
  unfolding expire
  expire_lem now old q h = ground (arith, h)

  pub execute_proposal_lem :
      (fill_price : Option num.F) (fees : num.F) (now : ℕ) (d : Desk num)
      (old q : PaperTradeProposal num) (p : PaperPortfolio num)
      → execute_proposal num fill_price fees now d old ≡ ok (q, p)
      → (old.status ≡ Status.approved) × (q.status ≡ Status.executed)
  unfolding execute_proposal execute_approved
  execute_proposal_lem fill_price fees now d old q p h = ground (arith, h)

  propose_from_signal_lem :
      (signal : Signal) (number : ℕ) (p : PaperPortfolio num) (asset : Asset) (price : num.F)
      (stop_price : Option num.F) (q : PaperTradeProposal num)
      → propose_from_signal num signal number p asset price stop_price ≡ ok (some q)
      → q.status ≡ Status.pending
  unfolding propose_from_signal
  propose_from_signal_lem signal number p asset price stop_price q h = ground (arith, h)

  added-Move :
      (n : ℕ) (a : Action num) (d : Desk num)
      (m : Result ProposalError (Option (PaperTradeProposal num)))
      → ((q : PaperTradeProposal num) → m ≡ ok (some q) → q.status ≡ Status.pending)
      → Move n a (status_of num n d) (status_of num n (added num d m))
  added-Move n a d (err e) pending = stays refl
  added-Move n a d (ok none) pending = stays refl
  added-Move n a d (ok (some q)) pending = elim (status_in-append n q d.proposals) [
    | inl same ↦ stays same
    | inr (absent, new) ↦ is_proposed absent (new ∙ ap some (pending q refl))
  ]

  -- `with_portfolios` and `with_portfolio` return what the call returned.
  pub with_portfolios-ok :
      (d : Desk num) (m : Result ProposalError (PaperTradeProposal num))
      (q : PaperTradeProposal num) (ps : Dict (PaperPortfolio num))
      → with_portfolios num d m ≡ ok (q, ps)
      → m ≡ ok q
  with_portfolios-ok d (ok r) q ps h = ground (arith, h)
  with_portfolios-ok d (err e) q ps h = ground (arith, h)

  pub with_portfolio-ok :
      (d : Desk num) (m : Result ProposalError (PaperTradeProposal num × PaperPortfolio num))
      (q : PaperTradeProposal num) (ps : Dict (PaperPortfolio num))
      → with_portfolio num d m ≡ ok (q, ps)
      → (p : PaperPortfolio num) × (m ≡ ok (q, p))
  with_portfolio-ok d (ok (r, p)) q ps h = (p, ground (arith, h))
  with_portfolio-ok d (err e) q ps h = ground (arith, h)

  -- Every call of this module is one step in the life of a proposal, or none: it is proposed as pending,
  -- approved or expired from pending, rejected from pending or approved, and executed from approved
  -- only, by an execution of that proposal.
  pub act-Move :
      (n : ℕ) (a : Action num) (d : Desk num)
      → Move n a (status_of num n d) (status_of num n (act num a d))
  unfolding act
  act-Move n (Action.call_propose signal number asset price stop_price) d =
      elim (Option-cases (lookup number d.portfolios)) [
        | inl absent ↦ stays (ground (arith, absent))
        | inr (p, found) ↦
            subst
              (λ (o : Option (PaperPortfolio num)).
                Move n (Action.call_propose signal number asset price stop_price)
                  (status_of num n d)
                  (status_of num n (elim o as (λ _. Desk num) [
                    | none ↦ d
                    | some r ↦
                        added num d (propose_from_signal num signal number r asset price stop_price)
                  ])))
              (sym found)
              (added-Move n _ d (propose_from_signal num signal number p asset price stop_price)
                (propose_from_signal_lem signal number p asset price stop_price))
      ]
  act-Move n (Action.call_approve m now) d =
      elim (change_lem n m (λ q. with_portfolios num d (approve num now q)) d) [
        | inl same ↦ stays same
        | inr (old, q, ps, here, returned, was, is) ↦
            let (before, after) =
              approve_lem now old q (with_portfolios-ok d (approve num now old) q ps returned) in
            is_approved here (was ∙ ap some before) (is ∙ ap some after)
      ]
  act-Move n (Action.call_reject m now) d =
      elim (change_lem n m (λ q. with_portfolios num d (reject num now q)) d) [
        | inl same ↦ stays same
        | inr (old, q, ps, here, returned, was, is) ↦
            let (before, after) =
              reject_lem now old q (with_portfolios-ok d (reject num now old) q ps returned) in
            is_rejected
              (elim before [
                | inl pending ↦ inl (was ∙ ap some pending)
                | inr approved ↦ inr (was ∙ ap some approved)
              ])
              (is ∙ ap some after)
      ]
  act-Move n (Action.call_expire m now) d =
      elim (change_lem n m (λ q. with_portfolios num d (expire num now q)) d) [
        | inl same ↦ stays same
        | inr (old, q, ps, here, returned, was, is) ↦
            let (before, after) =
              expire_lem now old q (with_portfolios-ok d (expire num now old) q ps returned) in
            is_expired (was ∙ ap some before) (is ∙ ap some after)
      ]
  act-Move n (Action.call_execute m fill_price fees now) d =
      elim (change_lem n m
        (λ q. with_portfolio num d (execute_proposal num fill_price fees now d q)) d) [
          | inl same ↦ stays same
          | inr (old, q, ps, here, returned, was, is) ↦
              let (p, executed) =
                with_portfolio-ok d (execute_proposal num fill_price fees now d old) q ps
                  returned in
              let (before, after) = execute_proposal_lem fill_price fees now d old q p executed in
              is_executed here (was ∙ ap some before) (is ∙ ap some after)
        ]
