-- ===== src/Brain/Signals/Severity.antt =====
-- What the engine emits: at most one signal for each asset, the most severe first.
use trading_brain.Base.{
  ◌≡◌, ◌⊎◌, inl, inr, refl, sym, subst, arith, true, false, ◌||◌, none, some, List, [], ◌∷◌, if_ind,
  when_some_ind, All, ok, err, ◌>>=◌, Bool-cases,
}
use trading_brain.Quant.Floats.{Floats}
use trading_brain.Brain.Signals.{SignalCategory, GeneratedSignal}
use trading_brain.Brain.Signals.Context.{Context, is_broken, is_stale, is_thesis}
use trading_brain.Brain.Signals.Rules.{Answer, thesis_review_rule, later_rules, rules}
use trading_brain.Brain.Signals.Engine.{first_signal, generate_for_asset}
use trading_brain.Brain.Signals.Sound.{
  IsSignal, Answers, signal_lem, built-IsSignal, IsGood, IsJustified, thesis_review_rule-Answers,
  exit_review_rule-Answers, reduce_rule-Answers, accumulate_rule-Answers, research_rule-Answers,
  watch_rule-Answers,
}

-- A signal that is given has the property.
abbrev pub Gives : (GeneratedSignal → Type 0) → Answer → Type 0
Gives P (ok (some s)) = P s
Gives P (ok none) = ⊥
Gives P (err e) = ⊥

module _ (num : Floats) (c : Context num) where
  first_signal-Answers :
      (P : GeneratedSignal → Type 0) (rs : List (Context num → Answer))
      → All (λ (r : Context num → Answer). Answers P (r c)) rs
      → Answers P (first_signal num rs c)
  unfolding first_signal
  first_signal-Answers P [] h = tt
  first_signal-Answers P (r ∷ rs) h = first_of (r c) h.0 (first_signal-Answers P rs h.1)
    where
      first_of :
          (a : Answer)
          → Answers P a
          → Answers P (first_signal num rs c)
          → Answers P (a >>= λ o. elim o [ none ↦ first_signal num rs c | some s ↦ ok (some s) ])
      first_of (ok none) k later = later
      first_of (ok (some s)) k later = k
      first_of (err e) k later = k

  -- The signal of an asset: what it claims holds of the context, and unless it is a review of the thesis,
  -- the thesis is not broken.
  pub record IsWarranted (s : GeneratedSignal) : Type 0 where
    pub valid : IsSignal s
    pub justified : IsJustified num c s.category
    pub severe :
        (s.category ≡ SignalCategory.thesis_review) ⊎ (is_thesis is_broken c.thesis ≡ false)

  rules-IsGood : All (λ (r : Context num → Answer). Answers (IsGood num c) (r c)) (rules num)
  rules-IsGood = (
    thesis_review_rule-Answers num c,
    (
      exit_review_rule-Answers num c,
      (
        reduce_rule-Answers num c,
        (
          accumulate_rule-Answers num c,
          (research_rule-Answers num c, (watch_rule-Answers num c, tt)),
        ),
      ),
    ),
  )

  Answers-map :
      (P Q : GeneratedSignal → Type 0) (a : Answer)
      → ((s : GeneratedSignal) → P s → Q s)
      → Answers P a
      → Answers Q a
  Answers-map P Q (ok none) f h = tt
  Answers-map P Q (ok (some s)) f h = f s h
  Answers-map P Q (err e) f h = h

  abbrev pub IsReview : GeneratedSignal → Type 0
  IsReview s = (s.category ≡ SignalCategory.thesis_review) × IsGood num c s

  thesis_review_rule-Gives :
      is_thesis is_broken c.thesis ≡ true → Gives IsReview (thesis_review_rule num c)
  unfolding thesis_review_rule
  thesis_review_rule-Gives broken =
      when_some_ind (Gives IsReview) c.thesis (λ absent. ground (arith, absent, broken))
        λ t found.
          if_ind (Gives IsReview) (is_broken t.current_assessment || is_stale c.now t)
            (λ fires.
              subst (Gives IsReview) (sym (signal_lem SignalCategory.thesis_review _ (omega arith)))
                (
                  refl,
                  (built-IsSignal SignalCategory.thesis_review _ (omega arith), (t, found, fires)),
                ))
            (λ quiet. ground (arith, broken, found, quiet))

  Gives-first_signal :
      (P : GeneratedSignal → Type 0) (r : Context num → Answer) (rs : List (Context num → Answer))
      → Gives P (r c)
      → Gives P (first_signal num (r ∷ rs) c)
  unfolding first_signal
  Gives-first_signal P r rs h = kept (r c) h
    where
      kept :
          (a : Answer)
          → Gives P a
          → Gives P (a >>= λ o. elim o [ none ↦ first_signal num rs c | some s ↦ ok (some s) ])
      kept (ok none) k = absurd k
      kept (ok (some s)) k = k
      kept (err e) k = absurd k

  Gives-Answers :
      (P Q : GeneratedSignal → Type 0) (a : Answer)
      → ((s : GeneratedSignal) → P s → Q s)
      → Gives P a
      → Answers Q a
  Gives-Answers P Q (ok none) f h = tt
  Gives-Answers P Q (ok (some s)) f h = f s h
  Gives-Answers P Q (err e) f h = h

  warranted : Answers IsWarranted (generate_for_asset num c)
  unfolding generate_for_asset
  warranted = elim (Bool-cases (is_thesis is_broken c.thesis)) [
    | inl broken ↦
        Gives-Answers IsReview IsWarranted (first_signal num (rules num) c)
          (λ s h. record { valid = h.1.0; justified = h.1.1; severe = inl h.0 })
          (Gives-first_signal IsReview (thesis_review_rule num) (later_rules num)
            (thesis_review_rule-Gives broken))
    | inr whole ↦
        Answers-map (IsGood num c) IsWarranted (first_signal num (rules num) c)
          (λ s h. record { valid = h.0; justified = h.1; severe = inr whole })
          (first_signal-Answers (IsGood num c) (rules num) rules-IsGood)
  ]

  reviewed : (is_thesis is_broken c.thesis ≡ false) ⊎ Gives IsReview (generate_for_asset num c)
  unfolding generate_for_asset
  reviewed = elim (Bool-cases (is_thesis is_broken c.thesis)) [
    | inl broken ↦ inr (
        Gives-first_signal IsReview (thesis_review_rule num) (later_rules num)
          (thesis_review_rule-Gives broken))
    | inr whole ↦ inl whole
  ]

  -- For every context, no constructor refuses a signal, and a signal has evidence, has the confidence that
  -- its evidence gives, at most 1, and claims what holds: a reduction or a review of the exit needs a
  -- position, a reduction a thesis that is not broken, an accumulation a sound thesis, a bullish regime,
  -- positive momentum and no price above 35 times the earnings, research a queued score of 0.6, a watch a
  -- tracked asset. A thesis that is weakened or invalidated always gives its review, before all else.
  pub generate_for_asset-IsWarranted :
      Answers IsWarranted (generate_for_asset num c)
      × ((is_thesis is_broken c.thesis ≡ false) ⊎ Gives IsReview (generate_for_asset num c))
  generate_for_asset-IsWarranted = (warranted, reviewed)
