-- ===== src/Brain/Signals.antt =====
-- The types and the constructors of brain/signals/schemas.py. Of evidence, its kind and its stance are
-- kept; details, values and reasons are texts for the reader. A confidence is in ten-thousandths, to
-- which the code rounds it. `SignalCategory` has no category that names an execution, so that the test
-- of `__post_init__` for such a name has nothing to find and is left out.
pub mod Context
pub mod Rules
pub mod Engine
pub mod Sound
pub mod Severity
pub mod Runs
use trading_brain.Base.{
  ℕ, ◌+◌, ◌*◌, min, Bool, true, false, List, [], ◌∷◌, ltb, ◌==◌, if◌then◌else◌, keep, length,
  Result, ok, err, round_div,
}

pub data SignalCategory : Type 0 where
  watch research accumulate reduce exit_review thesis_review : SignalCategory

pub data SignalError : Type 0 where
  no_evidence confidence_out_of_range : SignalError

pub data EvidenceKind : Type 0 where
  regime quant thesis research position valuation : EvidenceKind

pub data EvidenceStance : Type 0 where
  supports contradicts unknown : EvidenceStance

pub record Evidence : Type 0 where
  pub kind : EvidenceKind
  pub stance : EvidenceStance

pub record GeneratedSignal : Type 0 where
  pub category : SignalCategory
  pub evidence : List Evidence
  pub confidence : ℕ

abbrev is_supporting : Evidence → Bool
is_supporting e = elim e.stance [ EvidenceStance.supports ↦ true | _ ↦ false ]

abbrev is_contradicting : Evidence → Bool
is_contradicting e = elim e.stance [ EvidenceStance.contradicts ↦ true | _ ↦ false ]

abbrev is_unknown : Evidence → Bool
is_unknown e = elim e.stance [ EvidenceStance.unknown ↦ true | _ ↦ false ]

-- `supporting`, `contradicting`, and the evidence that is missing.
abbrev pub supporting : List Evidence → List Evidence
supporting = keep is_supporting

abbrev pub contradicting : List Evidence → List Evidence
contradicting = keep is_contradicting

abbrev pub missing : List Evidence → List Evidence
missing = keep is_unknown

-- `compute_confidence`, with the numerator and the denominator doubled.
unfoldable pub compute_confidence : List Evidence → ℕ
unfolding round_div
compute_confidence evidence =
    let twice_supporting = 2 * length (supporting evidence) in
    let denominator =
      twice_supporting + 2 * length (contradicting evidence) + length (missing evidence) in
    if denominator == 0
    then 0
    else round_div (min (10000 * denominator) (10000 * twice_supporting)) denominator

-- `GeneratedSignal.__post_init__`
unfoldable pub signal_post_init : GeneratedSignal → Result SignalError GeneratedSignal
signal_post_init s = elim s.evidence [
  | [] ↦ err SignalError.no_evidence
  | e ∷ es ↦ if ltb 10000 s.confidence then err SignalError.confidence_out_of_range else ok s
]

-- `build_signal`
unfoldable pub build_signal : SignalCategory → List Evidence → Result SignalError GeneratedSignal
unfolding compute_confidence signal_post_init
build_signal category evidence =
    signal_post_init (record {
      category = category;
      evidence = evidence;
      confidence = compute_confidence evidence;
    })
