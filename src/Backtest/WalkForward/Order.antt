-- ===== src/Backtest/WalkForward/Order.antt =====
-- The windows of a split come in order, and the split ends.
use trading_brain.Base.{
  ℕ, zero, suc, ◌+◌, ◌≤◌, ◌<◌, ◌≡◌, refl, ap, sym, ◌∙◌, subst, arith, some, List, [], ◌∷◌, length,
  leb, first, last, last_of, All, All-map, ◌==◌, ==_iff, ok, err, Bool-cases, leb→le, inl, inr,
}
use trading_brain.Backtest.WalkForward.{
  Window, SplitError, take, slice, window, windows_from, split, enough,
}
use trading_brain.Backtest.Engine.Timeline.{IsIncreasing}

-- The time at an index.
abbrev pub nth : ℕ → List ℕ → ℕ
nth n [] = 0
nth zero (t ∷ ts) = t
nth (suc n) (t ∷ ts) = nth n ts

All-nth : (P : ℕ → Type 0) (i : ℕ) (ts : List ℕ) → All P ts → i < length ts → P (nth i ts)
All-nth P i [] h k = absurd (omega (arith, k))
All-nth P zero (t ∷ ts) h k = h.0
All-nth P (suc i) (t ∷ ts) h k = All-nth P i ts h.1 (omega (arith, k))

nth-lt : (i j : ℕ) (ts : List ℕ) → IsIncreasing ts → i < j → j < length ts → nth i ts < nth j ts
nth-lt i j [] h lt bound = absurd (omega (arith, bound))
nth-lt i zero (t ∷ ts) h lt bound = absurd (omega (arith, lt))
nth-lt zero (suc j) (t ∷ ts) h lt bound = All-nth (λ s. t < s) j ts h.0 (omega (arith, bound))
nth-lt (suc i) (suc j) (t ∷ ts) h lt bound =
    nth-lt i j ts h.1 (omega (arith, lt)) (omega (arith, bound))

first-slice :
    (start size : ℕ) (ts : List ℕ)
    → 0 < size
    → start + size ≤ length ts
    → first (slice start size ts) ≡ some (nth start ts)
first-slice start zero ts pos bound = absurd (omega (arith, pos))
first-slice zero (suc size) [] pos bound = absurd (omega (arith, bound))
first-slice zero (suc size) (t ∷ ts) pos bound = refl
first-slice (suc start) (suc size) [] pos bound = absurd (omega (arith, bound))
first-slice (suc start) (suc size) (t ∷ ts) pos bound =
    first-slice start (suc size) ts pos (omega (arith, bound))

last_of-take :
    (t size : ℕ) (ts : List ℕ) → size ≤ length ts → last_of t (take size ts) ≡ nth size (t ∷ ts)
last_of-take t zero ts bound = refl
last_of-take t (suc size) [] bound = absurd (omega (arith, bound))
last_of-take t (suc size) (u ∷ ts) bound = last_of-take u size ts (omega (arith, bound))

last-slice :
    (start size e : ℕ) (ts : List ℕ)
    → e ≡ start + size
    → start + suc size ≤ length ts
    → last (slice start (suc size) ts) ≡ some (nth e ts)
last-slice zero size e [] at bound = absurd (omega (arith, bound))
last-slice zero size e (t ∷ ts) at bound =
    ap some
      (last_of-take t size ts (omega (arith, bound)) ∙ ap (λ n. nth n (t ∷ ts)) (omega (arith, at)))
last-slice (suc start) size e [] at bound = absurd (omega (arith, bound))
last-slice (suc start) size zero (t ∷ ts) at bound = absurd (omega (arith, at))
last-slice (suc start) size (suc e) (t ∷ ts) at bound =
    last-slice start size e ts (omega (arith, at)) (omega (arith, bound))

-- The training window comes before the test window.
pub record IsOrdered (w : Window) : Type 0 where
  pub train : w.train_start ≤ w.train_end
  pub apart : w.train_end < w.test_start
  pub test : w.test_start ≤ w.test_end

-- Each test window ends before every later one begins.
abbrev pub IsDisjoint : List Window → Type 0
IsDisjoint [] = Unit
IsDisjoint (w ∷ ws) = All (λ (x : Window). w.test_end < x.test_start) ws × IsDisjoint ws

window_at : (p q start : ℕ) → List ℕ → Window
window_at p q start ts = record {
  train_start = nth start ts;
  train_end = nth (start + p) ts;
  test_start = nth (start + suc p) ts;
  test_end = nth (start + suc p + q) ts;
}

window_lem :
    (p q step start : ℕ) (ts : List ℕ)
    → start + suc p + suc q ≤ length ts
    → window (record { train_size = suc p; test_size = suc q; step = step }) ts start
      ≡ ok (window_at p q start ts)
unfolding window window_at
window_lem p q step start ts bound =
    rw
      (
        first-slice start (suc p) ts (omega arith) (omega (arith, bound)),
        last-slice start p (start + p) ts refl (omega (arith, bound)),
        first-slice (start + suc p) (suc q) ts (omega arith) (omega (arith, bound)),
        last-slice (start + suc p) q (start + suc p + q) ts refl (omega (arith, bound)),
      )
      refl

nth-le : (i j : ℕ) (ts : List ℕ) → IsIncreasing ts → i ≤ j → j < length ts → nth i ts ≤ nth j ts
nth-le i j ts h le bound = elim (Bool-cases (i == j)) [
  | inl same ↦ subst (λ k. nth i ts ≤ nth k ts) ((==_iff i j).0 same) (omega arith)
  | inr differ ↦
      let below : nth i ts < nth j ts = nth-lt i j ts h (ground (arith, differ)) bound in
      omega (arith, below)
]

window_at-IsOrdered :
    (p q start : ℕ) (ts : List ℕ)
    → IsIncreasing ts
    → start + suc p + suc q ≤ length ts
    → IsOrdered (window_at p q start ts)
unfolding window_at
window_at-IsOrdered p q start ts h bound = record {
  train = nth-le start (start + p) ts h (omega arith) (omega (arith, bound));
  apart = nth-lt (start + p) (start + suc p) ts h (omega arith) (omega (arith, bound));
  test = nth-le (start + suc p) (start + suc p + q) ts h (omega arith) (omega (arith, bound));
}

-- Where the test window of a later window begins.
abbrev BeginsFrom : ℕ → List ℕ → Window → Type 0
BeginsFrom start ts w = (i : ℕ) × (start ≤ i) × (i < length ts) × (w.test_start ≡ nth i ts)

pub record IsSplit (p q step start : ℕ) (ts : List ℕ) (ws : List Window) : Type 0 where
  pub ordered : All IsOrdered ws
  pub disjoint : suc q ≤ step → IsDisjoint ws
  pub begins : All (BeginsFrom (start + suc p) ts) ws

IsSplit-next :
    (p q step start : ℕ) (ts : List ℕ) (ws : List Window)
    → IsIncreasing ts
    → start + suc p + suc q ≤ length ts
    → IsSplit p q step (start + step) ts ws
    → IsSplit p q step start ts (window_at p q start ts ∷ ws)
unfolding window_at
IsSplit-next p q step start ts ws h bound rest = record {
  ordered = (window_at-IsOrdered p q start ts h bound, rest.ordered);
  disjoint = λ wide. (
    All-map (BeginsFrom (start + step + suc p) ts)
        (λ (x : Window). nth (start + suc p + q) ts < x.test_start) ws
        (λ x (i, le, inside, e).
          subst (λ s. nth (start + suc p + q) ts < s) (sym e)
            (nth-lt (start + suc p + q) i ts h (omega (arith, le, wide)) inside))
        rest.begins,
    rest.disjoint wide,
  );
  begins = (
    (start + suc p, omega arith, omega (arith, bound), refl),
    All-map (BeginsFrom (start + step + suc p) ts) (BeginsFrom (start + suc p) ts) ws
        (λ x (i, le, inside, e). (i, omega (arith, le), inside, e)) rest.begins,
  );
}

windows_from-IsSplit :
    (p q step : ℕ) (ts : List ℕ) (fuel start : ℕ)
    → IsIncreasing ts
    → 0 < step
    → 0 < fuel
    → length ts < start + fuel
    → (ws : List Window) × (windows_from
          (record { train_size = suc p; test_size = suc q; step = step })
          ts
          fuel
          start
        ≡ ok ws)
      × IsSplit p q step start ts ws
unfolding windows_from
windows_from-IsSplit p q step ts zero start h pos some_fuel more = absurd (omega (arith, some_fuel))
windows_from-IsSplit p q step ts (suc fuel) start h pos some_fuel more =
    elim (Bool-cases (leb (start + suc p + suc q) (length ts))) [
      | inl room ↦
          let bound : start + suc p + suc q ≤ length ts = leb→le _ _ room in
          let (ws, e, rest) =
            windows_from-IsSplit p q step ts fuel (start + step) h pos (omega (arith, more, bound))
              (omega (arith, more, pos)) in
          (
            window_at p q start ts ∷ ws,
            rw (room, window_lem p q step start ts bound, e) refl,
            IsSplit-next p q step start ts ws h bound rest,
          )
      | inr over ↦ ([], rw over refl, record { ordered = tt; disjoint = λ _. tt; begins = tt })
    ]

-- The split of a timeline returns if the sizes and the step are positive, whatever the length of the
-- timeline. Each of its windows trains before it tests; and if the step is at least the size of the
-- test window, each test window ends before every later one begins.
pub split-IsSplit :
    (p q step : ℕ) (ts : List ℕ)
    → IsIncreasing ts
    → 0 < step
    → (ws : List Window) × (split (record { train_size = suc p; test_size = suc q; step = step }) ts
        ≡ ok ws)
      × All IsOrdered ws
      × (suc q ≤ step → IsDisjoint ws)
unfolding split
split-IsSplit p q step ts h pos =
    let (ws, e, s) =
      windows_from-IsSplit p q step ts (enough ts) 0 h pos (omega arith) (omega arith) in
    (ws, e, s.ordered, s.disjoint)

-- A step of 0 never ends, once the timeline has room for one window: no fuel is enough.
windows_from-step_zero :
    (p q : ℕ) (ts : List ℕ) (fuel start : ℕ)
    → start + suc p + suc q ≤ length ts
    → windows_from (record { train_size = suc p; test_size = suc q; step = 0 }) ts fuel start
      ≡ err SplitError.out_of_fuel
unfolding windows_from
windows_from-step_zero p q ts zero start bound = refl
windows_from-step_zero p q ts (suc fuel) start bound =
    rw
      (
        window_lem p q 0 start ts bound,
        windows_from-step_zero p q ts fuel (start + 0) (omega (arith, bound)),
      )
      (ground (arith, bound))
