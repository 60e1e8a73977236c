-- ===== src/Brain/Learning/Accuracy.antt =====
-- An outcome is read from the prices of its horizon only, and every directional signal is counted once.
use trading_brain.Base.{
  ℕ, ◌+◌, ◌*◌, ◌≤◌, ◌≡◌, refl, sym, ◌∙◌, ap, arith, Bool, true, false, ◌&&◌, Option, none, some,
  List, [], ◌∷◌, ltb, leb, ◌==◌, when_some, keep, length, last, sort, up_to-sort, lookup-insert,
  Option-cases, inl, inr,
}
use trading_brain.Quant.Floats.{Floats}
use trading_brain.Data.Prices.{Price, is_series, get_price_bars}
use trading_brain.Brain.Signals.{SignalCategory}
use trading_brain.Brain.Learning.{
  Signal, AccuracyBlock, SignalAccuracy, expects_rise, key_of, with_outcome, no_accuracy, ts_of,
  positive_close, return_from, return_of_bars, forward_return, scored, score_all, signal_accuracy,
  block_of, outcome_of,
}

keep-keep {ℓ} :
    {A : Type ℓ} (p q : A → Bool) (xs : List A)
    → ((x : A) → p x ≡ true → q x ≡ true)
    → keep p (keep q xs) ≡ keep p xs
keep-keep p q [] h = refl
keep-keep p q (x ∷ xs) h = ground (arith, keep-keep p q xs h, h x)

keep_comm {ℓ} :
    {A : Type ℓ} (p q : A → Bool) (xs : List A) → keep p (keep q xs) ≡ keep q (keep p xs)
keep_comm p q [] = refl
keep_comm p q (x ∷ xs) = ground (arith, keep_comm p q xs)

length_pos {ℓ} : {A : Type ℓ} (xs : List A) (a : A) → last xs ≡ some a → 1 ≤ length xs
length_pos [] a h = ground (arith, h)
length_pos (x ∷ xs) a h = omega arith

-- Two tests that exclude each other keep no more than there is.
length-keep-keep {ℓ} :
    {A : Type ℓ} (p q : A → Bool) (xs : List A)
    → ((x : A) → p x ≡ true → q x ≡ false)
    → length (keep p xs) + length (keep q xs) ≤ length xs
length-keep-keep p q [] h = omega arith
length-keep-keep p q (x ∷ xs) h = ground (arith, length-keep-keep p q xs h, h x)

module _ (num : Floats) where
  -- Both prices are there only if there are two bars.
  return_of_bars_lem :
      (anchor deadline : ℕ) (bars : List (Price num))
      → return_of_bars num anchor deadline bars ≡ (
          when_some (last (keep (λ r. leb (ts_of num r) anchor) bars)) none λ before.
            when_some (positive_close num before) none λ start.
              when_some
                (last (keep (λ r. ltb anchor (ts_of num r) && leb (ts_of num r) deadline) bars))
                none
                λ r. some (return_from num start r))
  unfolding return_of_bars
  return_of_bars_lem anchor deadline bars =
      let early = λ (r : Price num). leb (ts_of num r) anchor in
      let late = λ (r : Price num). ltb anchor (ts_of num r) && leb (ts_of num r) deadline in
      elim (Option-cases (last (keep early bars))) [
        | inl absent ↦ ground (arith, absent)
        | inr (before, found) ↦ elim (Option-cases (last (keep late bars))) [
          | inl absent ↦ ground (arith, found, absent)
          | inr (r, found_later) ↦ ground (
            arith,
            found,
            found_later,
            length_pos (keep early bars) before found,
            length_pos (keep late bars) r found_later,
            length-keep-keep early late bars (λ x h. ground (arith, h)),
          )
        ]
      ]

  abbrev is_by : ℕ → Price num → Bool
  is_by deadline r = leb (ts_of num r) deadline

  get_price_bars-keep :
      (asset deadline : ℕ) (table : List (Price num))
      → get_price_bars num asset 0 none none none (keep (is_by deadline) table)
        ≡ keep (is_by deadline) (get_price_bars num asset 0 none none none table)
  unfolding get_price_bars
  get_price_bars-keep asset deadline table =
      let selects = λ (r : Price num). (is_series num asset 0 r && true) && true in
      ap (sort (ts_of num)) (keep_comm selects (is_by deadline) table)
      ∙ sym (up_to-sort (ts_of num) deadline (keep selects table))

  -- An outcome depends on no price after its horizon: with every later row deleted it is the same.
  pub forward_return-keep :
      (asset from_time horizon_days : ℕ) (table : List (Price num))
      → let deadline = from_time + horizon_days * 86_400_000_000 in
        forward_return num asset from_time horizon_days
          (keep (λ (r : Price num). leb (ts_of num r) deadline) table)
        ≡ forward_return num asset from_time horizon_days table
  unfolding forward_return
  forward_return-keep asset from_time horizon_days table =
      let deadline = from_time + horizon_days * 86_400_000_000 in
      let bars = get_price_bars num asset 0 none none none table in
      let early = λ (r : Price num). leb (ts_of num r) from_time in
      let late = λ (r : Price num). ltb from_time (ts_of num r) && leb (ts_of num r) deadline in
      ap (return_of_bars num from_time deadline) (get_price_bars-keep asset deadline table)
      ∙ return_of_bars_lem from_time deadline (keep (is_by deadline) bars)
      ∙ rw
          (
            keep-keep early (is_by deadline) bars (λ x h. ground (arith, h)),
            keep-keep late (is_by deadline) bars (λ x h. ground (arith, h)),
          )
          (sym (return_of_bars_lem from_time deadline bars))

-- All the signals that a block counts.
abbrev pub total_of : AccuracyBlock → ℕ
total_of b = b.correct + b.incorrect + b.unresolved

abbrev pub is_directional : Signal → Bool
is_directional s = when_some (expects_rise s.category) false λ _. true

abbrev pub is_category : SignalCategory → Signal → Bool
is_category c s = is_directional s && key_of c == key_of s.category

with_outcome_total :
    (o : Option Bool) (b : AccuracyBlock) → total_of (with_outcome o b) ≡ total_of b + 1
with_outcome_total o b = ground arith

module _ (num : Floats) (horizon_days : ℕ) (table : List (Price num)) where
  score_all-overall :
      (signals : List Signal) (a : SignalAccuracy)
      → total_of (score_all num horizon_days table signals a).overall
        ≡ total_of a.overall + length (keep is_directional signals)
  unfolding score_all
  score_all-overall [] a = omega arith
  score_all-overall (s ∷ signals) a = elim (Option-cases (expects_rise s.category)) [
    | inl silent ↦ ground (arith, silent, score_all-overall signals a)
    | inr (rise, found) ↦
        let move = forward_return num s.asset_id s.generated_at horizon_days table in
        ground (
          arith,
          found,
          with_outcome_total (outcome_of num rise move) a.overall,
          score_all-overall signals (scored num s rise move a),
        )
  ]

  score_all-by_category :
      (c : SignalCategory) (signals : List Signal) (a : SignalAccuracy)
      → total_of (block_of (key_of c) (score_all num horizon_days table signals a).by_category)
        ≡ total_of (block_of (key_of c) a.by_category) + length (keep (is_category c) signals)
  unfolding score_all
  score_all-by_category c [] a = omega arith
  score_all-by_category c (s ∷ signals) a = elim (Option-cases (expects_rise s.category)) [
    | inl silent ↦ ground (arith, silent, score_all-by_category c signals a)
    | inr (rise, found) ↦
        let move = forward_return num s.asset_id s.generated_at horizon_days table in
        ground (
          arith,
          found,
          with_outcome_total (outcome_of num rise move) (block_of (key_of c) a.by_category),
          lookup-insert (key_of s.category) (key_of c)
              (with_outcome (outcome_of num rise move) (block_of (key_of s.category) a.by_category))
              a.by_category,
          score_all-by_category c signals (scored num s rise move a),
        )
  ]

  -- Every directional signal of the period is counted exactly once, as correct, incorrect or unresolved,
  -- in the overall block and in that of its category, and no other signal is counted anywhere.
  pub signal_accuracy_balances :
      (start until : ℕ) (threshold : num.F) (assets : List ℕ) (signals : List Signal)
      (c : SignalCategory)
      → let a = (signal_accuracy num start until horizon_days threshold table assets signals).0 in
        let in_period =
          keep (λ (s : Signal). leb start s.generated_at && leb s.generated_at until) signals in
        (total_of a.overall ≡ length (keep is_directional in_period))
        × (total_of (block_of (key_of c) a.by_category) ≡ length (keep (is_category c) in_period))
  unfolding signal_accuracy
  signal_accuracy_balances start until threshold assets signals c =
      let in_period =
        keep (λ (s : Signal). leb start s.generated_at && leb s.generated_at until) signals in
      (
        omega (arith, score_all-overall in_period no_accuracy),
        omega (arith, score_all-by_category c in_period no_accuracy),
      )
