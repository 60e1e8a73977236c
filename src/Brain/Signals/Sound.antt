-- ===== src/Brain/Signals/Sound.antt =====
-- Every signal has evidence and a confidence from it, and says what its rule found.
use trading_brain.Base.{
  ◌+◌, ◌*◌, ◌≤◌, ◌<◌, ◌≡◌, inl, inr, refl, sym, subst, arith, min, true, false, not, ◌&&◌, ◌||◌,
  none, some, List, [], ◌∷◌, length, length-append, ltb, ok, err, if_ind, when_some_ind, first,
  round_div-le_of, Bool-cases, ◌==◌,
}
use trading_brain.Quant.Floats.{Floats}
use trading_brain.Quant.Accounting.{zero_of}
use trading_brain.Brain.Signals.{
  SignalCategory, Evidence, GeneratedSignal, supporting, contradicting, missing, compute_confidence,
  signal_post_init, build_signal,
}
use trading_brain.Brain.Signals.Context.{
  Thesis, QueueEntry, Position, is_broken, is_sound, is_bullish, is_thesis, is_regime, is_some_true,
  is_stale, Context, is_held, positive_momentum,
}
use trading_brain.Brain.Signals.Rules.{
  Findings, Answer, ◌and◌, signal, signal_if_any, thesis_review_rule, exit_findings,
  exit_review_rule, reduce_findings, reduce_rule, accumulate_rule, valuation, research_rule,
  watch_rule,
}

-- A signal with evidence, whose confidence is at most 1 and is the one that its own evidence gives.
pub record IsSignal (s : GeneratedSignal) : Type 0 where
  pub has_evidence : 0 < length s.evidence
  pub confidence : s.confidence ≡ compute_confidence s.evidence
  pub at_most_one : s.confidence ≤ 10000

compute_confidence-le : (evidence : List Evidence) → compute_confidence evidence ≤ 10000
unfolding compute_confidence
compute_confidence-le evidence =
    let twice_supporting = 2 * length (supporting evidence) in
    let denominator =
      twice_supporting + 2 * length (contradicting evidence) + length (missing evidence) in
    elim (Bool-cases (denominator == 0)) [
      | inl empty ↦ ground (arith, empty)
      | inr full ↦ ground (
        arith,
        full,
        round_div-le_of (min (10000 * denominator) (10000 * twice_supporting)) denominator 10000,
      )
    ]

-- No answer is an error, and a signal has the property.
abbrev pub Answers : (GeneratedSignal → Type 0) → Answer → Type 0
Answers P (ok none) = Unit
Answers P (ok (some s)) = P s
Answers P (err e) = ⊥

pub signal_lem :
    (category : SignalCategory) (evidence : List Evidence)
    → 0 < length evidence
    → signal category evidence
      ≡ ok (
          some (record {
            category = category;
            evidence = evidence;
            confidence = compute_confidence evidence;
          }))
unfolding build_signal signal_post_init
signal_lem category [] some_evidence = absurd (omega arith)
signal_lem category (e ∷ es) some_evidence = ground (arith, compute_confidence-le (e ∷ es))

pub built-IsSignal :
    (category : SignalCategory) (evidence : List Evidence)
    → 0 < length evidence
    → IsSignal (record {
      category = category;
      evidence = evidence;
      confidence = compute_confidence evidence;
    })
built-IsSignal category evidence some_evidence = record {
  has_evidence = some_evidence;
  confidence = refl;
  at_most_one = compute_confidence-le evidence;
}

pub signal-Answers :
    (P : GeneratedSignal → Type 0) (category : SignalCategory) (evidence : List Evidence)
    → 0 < length evidence
    → ((s : GeneratedSignal) → s.category ≡ category → IsSignal s → P s)
    → Answers P (signal category evidence)
signal-Answers P category evidence some_evidence h =
    rw (signal_lem category evidence some_evidence)
      (h _ refl (built-IsSignal category evidence some_evidence))

-- A trigger that fired has left its evidence.
abbrev IsBacked : Findings → Type 0
IsBacked f = f.triggers ≤ length f.evidence

and-IsBacked : (f g : Findings) → IsBacked f → IsBacked g → IsBacked (f and g)
and-IsBacked f g h k = omega (arith, length-append f.evidence g.evidence, h, k)

signal_if_any-Answers :
    (P : GeneratedSignal → Type 0) (category : SignalCategory) (f : Findings)
    → IsBacked f
    → ((s : GeneratedSignal) → s.category ≡ category → IsSignal s → P s)
    → Answers P (signal_if_any category f)
signal_if_any-Answers P category f backed h =
    if_ind (Answers P) (ltb 0 f.triggers)
      (λ fired. signal-Answers P category f.evidence (ground (arith, fired, backed)) h) (λ _. tt)

module _ (num : Floats) (c : Context num) where
  -- What must hold of the context for a signal of each category.
  abbrev pub IsJustified : SignalCategory → Type 0
  IsJustified SignalCategory.thesis_review =
      (t : Thesis) × (c.thesis ≡ some t)
      × ((is_broken t.current_assessment || is_stale c.now t) ≡ true)
  IsJustified SignalCategory.exit_review = is_held num c ≡ true
  IsJustified SignalCategory.reduce =
      (is_held num c ≡ true) × (is_thesis is_broken c.thesis ≡ false)
  IsJustified SignalCategory.accumulate =
      (is_thesis is_sound c.thesis ≡ true)
      × (is_regime is_bullish c.regime ≡ true)
      × (is_some_true (positive_momentum num c.quant) ≡ true)
      × ((pe : num.F) → c.pe_ratio ≡ some pe → num.lt (num.whole 35) pe ≡ false)
  IsJustified SignalCategory.research =
      (top : QueueEntry num) × (first c.queue_entries ≡ some top)
      × (num.lt top.score (num.div (num.whole 60) (num.whole 100)) ≡ false)
  IsJustified SignalCategory.watch = (c.is_watched || is_held num c) ≡ true

  abbrev pub IsGood : GeneratedSignal → Type 0
  IsGood s = IsSignal s × IsJustified s.category

  good :
      (category : SignalCategory)
      → IsJustified category
      → (s : GeneratedSignal) → s.category ≡ category
      → IsSignal s
      → IsGood s
  good category justified s same valid = (valid, subst IsJustified (sym same) justified)

  pub thesis_review_rule-Answers : Answers IsGood (thesis_review_rule num c)
  unfolding thesis_review_rule
  thesis_review_rule-Answers =
      when_some_ind (Answers IsGood) c.thesis (λ _. tt)
        λ t found.
          if_ind (Answers IsGood) (is_broken t.current_assessment || is_stale c.now t)
            (λ fires.
              signal-Answers IsGood SignalCategory.thesis_review _ (omega arith)
                (good SignalCategory.thesis_review (t, found, fires)))
            (λ _. tt)

  exit_findings-IsBacked : (p : Position num) → IsBacked (exit_findings num c p)
  exit_findings-IsBacked p = ground arith

  pub exit_review_rule-Answers : Answers IsGood (exit_review_rule num c)
  unfolding exit_review_rule
  exit_review_rule-Answers =
      when_some_ind (Answers IsGood) c.position (λ _. tt)
        λ p found.
          if_ind (Answers IsGood) (num.lt (zero_of num) p.quantity)
            (λ held.
              signal_if_any-Answers IsGood SignalCategory.exit_review (exit_findings num c p)
                (exit_findings-IsBacked p)
                (good SignalCategory.exit_review (ground (arith, found, held))))
            (λ _. tt)

  reduce_findings-IsBacked : IsBacked (reduce_findings num c)
  reduce_findings-IsBacked = ground arith

  pub reduce_rule-Answers : Answers IsGood (reduce_rule num c)
  unfolding reduce_rule
  reduce_rule-Answers =
      if_ind (Answers IsGood) (not (is_held num c) || is_thesis is_broken c.thesis) (λ _. tt)
        (λ held.
          signal_if_any-Answers IsGood SignalCategory.reduce (reduce_findings num c)
            reduce_findings-IsBacked
            (good SignalCategory.reduce (ground (arith, held), ground (arith, held))))

  pub accumulate_rule-Answers : Answers IsGood (accumulate_rule num c)
  unfolding accumulate_rule
  accumulate_rule-Answers =
      if_ind (Answers IsGood)
        (is_thesis is_sound c.thesis
          && is_regime is_bullish c.regime
          && is_some_true (positive_momentum num c.quant))
        (λ all_three.
          when_some_ind (Answers IsGood) (valuation num c.pe_ratio) (λ _. tt)
            λ e cheap. signal-Answers IsGood SignalCategory.accumulate _ (omega arith) (
              good SignalCategory.accumulate (
                ground (arith, all_three),
                ground (arith, all_three),
                ground (arith, all_three),
                λ pe known. ground (arith, cheap, known),
              )))
        (λ _. tt)

  pub research_rule-Answers : Answers IsGood (research_rule num c)
  unfolding research_rule
  research_rule-Answers =
      when_some_ind (Answers IsGood) (first c.queue_entries) (λ _. tt)
        λ top found.
          if_ind (Answers IsGood) (num.lt top.score (num.div (num.whole 60) (num.whole 100)))
            (λ _. tt)
            (λ high.
              signal-Answers IsGood SignalCategory.research _ (omega arith)
                (good SignalCategory.research (top, found, high)))

  pub watch_rule-Answers : Answers IsGood (watch_rule num c)
  unfolding watch_rule
  watch_rule-Answers =
      if_ind (Answers IsGood) (c.is_watched || is_held num c)
        (λ tracked.
          signal-Answers IsGood SignalCategory.watch _ (ground (arith, tracked))
            (good SignalCategory.watch tracked))
        (λ _. tt)
