-- ===== src/Backtest/Engine/Timeline.antt =====
-- The timeline: each time once, in order, and none beyond the end.
use trading_brain.Base.{
  leb→le, ℕ, ◌≤◌, ◌<◌, ◌≡◌, refl, ap, ◌∙◌, arith, not, Option, some, List, [], ◌∷◌, ◌++◌, leb, ltb,
  ◌==◌, if◌then◌else◌, keep, All, All-map, if_ind, Bool-cases, inl, inr,
}
use trading_brain.Quant.Floats.{Floats}
use trading_brain.Backtest.MarketView.{Series}
use trading_brain.Backtest.Engine.{
  build_timeline, add_stamp, sorted_set, not_after, not_before, stamps,
}

-- Later times are strictly later.
abbrev pub IsIncreasing : List ℕ → Type 0
IsIncreasing [] = Unit
IsIncreasing (t ∷ ts) = All (λ s. t < s) ts × IsIncreasing ts

add_stamp-All {κ} : (P : ℕ → Type κ) (t : ℕ) (ts : List ℕ) → P t → All P ts → All P (add_stamp t ts)
unfolding add_stamp
add_stamp-All P t [] h k = (h, tt)
add_stamp-All P t (s ∷ ss) h k =
    if_ind (All P) (ltb t s) (λ _. (h, k))
      (λ _. if_ind (All P) (t == s) (λ _. k) (λ _. (k.0, add_stamp-All P t ss h k.1)))

sorted_set-All {κ} : (P : ℕ → Type κ) (ts : List ℕ) → All P ts → All P (sorted_set ts)
unfolding sorted_set
sorted_set-All P [] h = tt
sorted_set-All P (t ∷ ts) h = add_stamp-All P t (sorted_set ts) h.0 (sorted_set-All P ts h.1)

kept_below : (t : ℕ) (ts : List ℕ) → All (λ s. s ≤ t) (keep (not_after (some t)) ts)
kept_below t [] = tt
kept_below t (s ∷ ts) =
    if_ind (All (λ s. s ≤ t)) (leb s t) (λ le. (leb→le s t le, kept_below t ts))
      (λ _. kept_below t ts)

pub timeline_below :
    (num : Floats) (history : Series num) (start : Option ℕ) (t : ℕ)
    → All (λ s. s ≤ t) (build_timeline num history start (some t))
unfolding build_timeline
timeline_below num history start t =
    sorted_set-All (λ s. s ≤ t)
      (keep (not_after (some t)) (keep (not_before start) (stamps num history)))
      (kept_below t (keep (not_before start) (stamps num history)))

add_stamp-IsIncreasing : (t : ℕ) (ts : List ℕ) → IsIncreasing ts → IsIncreasing (add_stamp t ts)
unfolding add_stamp
add_stamp-IsIncreasing t [] h = (tt, tt)
add_stamp-IsIncreasing t (s ∷ ss) h =
    if_ind IsIncreasing (ltb t s)
      (λ below. (
        (
          ground (arith, below),
          All-map (λ u. s < u) (λ u. t < u) ss (λ u k. ground (arith, below, k)) h.0,
        ),
        h,
      ))
      (λ not_below.
        if_ind IsIncreasing (t == s) (λ _. h)
          (λ differ. (
            add_stamp-All (λ u. s < u) t ss (ground (arith, not_below, differ)) h.0,
            add_stamp-IsIncreasing t ss h.1,
          )))

-- The timeline lists each time once, in order.
pub sorted_set-IsIncreasing : (ts : List ℕ) → IsIncreasing (sorted_set ts)
unfolding sorted_set
sorted_set-IsIncreasing [] = tt
sorted_set-IsIncreasing (t ∷ ts) =
    add_stamp-IsIncreasing t (sorted_set ts) (sorted_set-IsIncreasing ts)

abbrev to : ℕ → List ℕ → List ℕ
to t = keep (λ s. leb s t)

to-none : (t : ℕ) (ts : List ℕ) → All (λ s. t < s) ts → to t ts ≡ []
to-none t [] h = refl
to-none t (s ∷ ts) h = ground (arith, to-none t ts h.1, h.0)

to-add_stamp :
    (t s : ℕ) (ts : List ℕ)
    → IsIncreasing ts
    → to t (add_stamp s ts) ≡ (if leb s t then add_stamp s (to t ts) else to t ts)
unfolding add_stamp
to-add_stamp t s [] h = ground arith
to-add_stamp t s (u ∷ ts) h = elim (Bool-cases (leb u t)) [
  | inl below ↦ ground (arith, below, to-add_stamp t s ts h.1)
  | inr above ↦ ground (
    arith,
    above,
    to-add_stamp t s ts h.1,
    to-none t ts (All-map (λ v. u < v) (λ v. t < v) ts (λ v k. ground (arith, above, k)) h.0),
  )
]

to-sorted_set : (t : ℕ) (ts : List ℕ) → to t (sorted_set ts) ≡ sorted_set (to t ts)
unfolding sorted_set
to-sorted_set t [] = refl
to-sorted_set t (s ∷ ts) =
    ground
      (arith, to-add_stamp t s (sorted_set ts) (sorted_set-IsIncreasing ts), to-sorted_set t ts)

abbrev after : ℕ → List ℕ → List ℕ
after t = keep (λ s. not (leb s t))

after_late : (t : ℕ) (ts : List ℕ) → All (λ s. t < s) ts → after t ts ≡ ts
after_late t [] h = refl
after_late t (s ∷ ts) h = ground (arith, after_late t ts h.1, h.0)

split_at : (t : ℕ) (ts : List ℕ) → IsIncreasing ts → ts ≡ to t ts ++ after t ts
split_at t [] h = refl
split_at t (s ∷ ts) h = elim (Bool-cases (leb s t)) [
  | inl below ↦ ground (arith, below, split_at t ts h.1)
  | inr above ↦
      let late = All-map (λ v. s < v) (λ v. t < v) ts (λ v k. ground (arith, above, k)) h.0 in
      ground (arith, above, to-none t ts late, after_late t ts late)
]

to-to : (t u : ℕ) (ts : List ℕ) → t ≤ u → to t (to u ts) ≡ to t ts
to-to t u [] h = refl
to-to t u (s ∷ ts) h = ground (arith, to-to t u ts h)

-- The timeline to a later end is the timeline to the earlier one and what follows.
pub timeline-extends :
    (num : Floats) (history : Series num) (start : Option ℕ) (t u : ℕ)
    → t ≤ u
    → (rest : List ℕ) × (build_timeline num history start (some u)
        ≡ build_timeline num history start (some t) ++ rest)
unfolding build_timeline
timeline-extends num history start t u le =
    let ts : List ℕ = keep (not_before start) (stamps num history) in
    (
      after t (sorted_set (to u ts)),
      split_at t (sorted_set (to u ts)) (sorted_set-IsIncreasing (to u ts))
          ∙ ap (λ r. r ++ after t (sorted_set (to u ts)))
              (to-sorted_set t (to u ts) ∙ ap sorted_set (to-to t u ts le)),
    )
