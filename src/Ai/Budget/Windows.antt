-- ===== src/Ai/Budget/Windows.antt =====
-- Pruning and summing a window of the ledger.
use trading_brain.Base.{
  ℕ, ◌+◌, ◌≤◌, ◌≡◌, refl, ap, Bool, false, not, Option, none, some, List, [], ◌∷◌, ◌++◌, arith, ltb,
  keep, IsSorted, All, eq_refl, Bool-cases, inl, inr,
}
use trading_brain.Ai.Budget.{
  Window, pop_while, is_stale, same_month, prune, sum, spent, append_entry,
}

pub sum-append : (xs ys : List (ℕ × ℕ)) → sum (xs ++ ys) ≡ sum xs + sum ys
sum-append [] ys = omega arith
sum-append (x ∷ xs) ys = omega (arith, sum-append xs ys)

-- Nothing that happens now is stale now.
fresh_now : (d : Option ℕ) (now : ℕ) → is_stale d now now ≡ false
unfolding same_month
fresh_now none now = rw (eq_refl, eq_refl)
fresh_now (some d) now = ground arith

pop_while-append :
    (stale : ℕ → Bool) (es : List (ℕ × ℕ)) (t amount : ℕ)
    → stale t ≡ false
    → pop_while stale (es ++ (t, amount) ∷ []) ≡ pop_while stale es ++ (t, amount) ∷ []
unfolding pop_while
pop_while-append stale [] t amount h = rw h
pop_while-append stale ((s, b) ∷ es) t amount h =
    ground (arith, pop_while-append stale es t amount h)

pop_while-pop_while :
    (stale : ℕ → Bool) (es : List (ℕ × ℕ))
    → pop_while stale (pop_while stale es) ≡ pop_while stale es
unfolding pop_while
pop_while-pop_while stale [] = refl
pop_while-pop_while stale ((s, b) ∷ es) = ground (arith, pop_while-pop_while stale es)

pub prune-prune : (now : ℕ) (w : Window) → prune now (prune now w) ≡ prune now w
unfolding prune
prune-prune now w =
    ap (λ es. record w { entries = es }) (pop_while-pop_while (is_stale w.duration now) w.entries)

pub limit-prune : (now : ℕ) (w : Window) → (prune now w).limit ≡ w.limit
unfolding prune
limit-prune now w = refl

pub spent-prune : (now : ℕ) (w : Window) → spent now (prune now w) ≡ spent now w
spent-prune now w = rw prune-prune

-- What is recorded now counts now, on top of what counted before.
pub spent-append_entry :
    (now amount : ℕ) (w : Window) → spent now (append_entry now amount w) ≡ spent now w + amount
unfolding prune
spent-append_entry now amount w =
    rw (pop_while-append (is_stale w.duration now) w.entries now amount (fresh_now w.duration now))
      (omega
        (arith, sum-append (pop_while (is_stale w.duration now) w.entries) ((now, amount) ∷ [])))

-- With the entries in the order of their times, popping from the left keeps exactly the entries
-- that are not older than the duration.
keep_everything :
    (cutoff t : ℕ) (es : List (ℕ × ℕ))
    → cutoff ≤ t
    → All (λ (e : ℕ × ℕ). t ≤ e.0) es
    → keep (λ e. not (ltb e.0 cutoff)) es ≡ es
keep_everything cutoff t [] h all = refl
keep_everything cutoff t ((s, b) ∷ es) h all = ground (arith, keep_everything cutoff t es h all.1)

pub pop_while-eq-keep :
    (cutoff : ℕ) (es : List (ℕ × ℕ))
    → IsSorted (λ e. e.0) es
    → pop_while (λ t. ltb t cutoff) es ≡ keep (λ e. not (ltb e.0 cutoff)) es
unfolding pop_while
pop_while-eq-keep cutoff [] h = refl
pop_while-eq-keep cutoff ((t, b) ∷ es) h = elim (Bool-cases (ltb t cutoff)) [
  | inl old ↦ rw old (pop_while-eq-keep cutoff es h.1)
  | inr young ↦ rw young (ap (λ r. (t, b) ∷ r) (ground (arith, keep_everything cutoff t es)))
]
