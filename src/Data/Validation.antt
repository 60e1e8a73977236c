-- ===== src/Data/Validation.antt =====
-- `validate_price_bars` of data/normalization/validation.py. The messages of the issues are left out.
pub mod Sound
use trading_brain.Base.{
  ℕ, ◌+◌, ◌-◌, Bool, true, false, not, ◌&&◌, ◌||◌, Option, none, some, List, [], ◌∷◌, ◌++◌, ltb,
  ◌==◌, if◌then◌else◌, any, keep, length, sort, is_negative,
}
use trading_brain.Quant.Floats.{Floats, max_of, min_of}
use trading_brain.Backtest.Schemas.{PriceBar}

pub data IssueCode : Type 0 where
  missing_value non_positive_price high_below_low high_below_body low_above_body : IssueCode
  negative_volume future_timestamp duplicate_timestamp unordered_timestamps : IssueCode

pub data ValidationSeverity : Type 0 where
  error warning : ValidationSeverity

pub record ValidationIssue : Type 0 where
  pub code : IssueCode
  pub severity : ValidationSeverity
  pub ts : ℕ

abbrev pub is_error : ValidationIssue → Bool
is_error i = elim i.severity [
  | ValidationSeverity.error ↦ true
  | ValidationSeverity.warning ↦ false
]

-- A day, in microseconds.
abbrev pub future_tolerance : ℕ
future_tolerance = 86400000000

abbrev or_else : Option IssueCode → Option IssueCode → Option IssueCode
or_else none b = b
or_else (some a) b = some a

abbrev pub when : Bool → IssueCode → Option IssueCode
when true c = some c
when false c = none

module _ (num : Floats) where
  unfoldable pub check_value : num.F → Option IssueCode
  check_value x =
      or_else (when (num.is_missing x) IssueCode.missing_value)
        (when (num.le x (num.whole 0)) IssueCode.non_positive_price)

  -- `_check_bar`: the first thing that is wrong with a bar.
  unfoldable pub check_bar : ℕ → PriceBar num → Option IssueCode
  unfolding check_value
  check_bar now b = or_else (check_value b.open_price) (
      or_else (check_value b.high) (
        or_else (check_value b.low) (
          or_else (check_value b.close) (
            or_else (when (num.lt b.high b.low) IssueCode.high_below_low) (
              or_else
                (when (num.lt b.high (max_of num b.open_price b.close)) IssueCode.high_below_body)
                (or_else
                  (when (num.lt (min_of num b.open_price b.close) b.low) IssueCode.low_above_body)
                  (or_else (when (is_negative b.volume) IssueCode.negative_volume)
                    (when (ltb (now + future_tolerance) b.ts) IssueCode.future_timestamp))))))))

  -- The local variables of `validate_price_bars`, and the lists of the report.
  pub record Progress : Type 0 where
    pub seen_timestamps : List ℕ
    pub previous_ts : Option ℕ
    pub unordered_reported : Bool
    pub valid_bars : List (PriceBar num)
    pub issues : List ValidationIssue

  abbrev with_issue : IssueCode → ValidationSeverity → ℕ → Progress → Progress
  with_issue code severity ts p = record p {
    issues = p.issues ++ record { code = code; severity = severity; ts = ts } ∷ [];
  }

  abbrev pub was_seen : ℕ → List ℕ → Bool
  was_seen ts seen = any (λ s. ts == s) seen

  abbrev is_behind : ℕ → Option ℕ → Bool
  is_behind ts none = false
  is_behind ts (some previous) = ltb ts previous

  -- The bar joins the valid ones; the first that is out of order is reported.
  unfoldable pub accept : PriceBar num → Progress → Progress
  accept b p =
      let out_of_order = is_behind b.ts p.previous_ts && not p.unordered_reported in
      let q =
        if out_of_order
        then with_issue IssueCode.unordered_timestamps ValidationSeverity.warning b.ts
            (record p { unordered_reported = true })
        else p in
      record q {
        seen_timestamps = b.ts ∷ p.seen_timestamps;
        previous_ts = some b.ts;
        valid_bars = p.valid_bars ++ b ∷ [];
      }

  -- One turn of the loop.
  unfoldable pub check_one : ℕ → PriceBar num → Progress → Progress
  unfolding accept check_bar
  check_one now b p = elim (check_bar now b) [
    | some code ↦ with_issue code ValidationSeverity.error b.ts p
    | none ↦
        if was_seen b.ts p.seen_timestamps
        then with_issue IssueCode.duplicate_timestamp ValidationSeverity.error b.ts p
        else accept b p
  ]

  unfoldable pub check_all : ℕ → List (PriceBar num) → Progress → Progress
  check_all now [] p = p
  check_all now (b ∷ bs) p = check_all now bs (check_one now b p)

  pub record ValidationReport : Type 0 where
    pub bars_checked : ℕ
    pub valid_bars : List (PriceBar num)
    pub issues : List ValidationIssue

  -- `ValidationReport.errors`, `is_clean`, `rejected_count`
  abbrev pub errors : ValidationReport → List ValidationIssue
  errors r = keep is_error r.issues

  abbrev pub is_clean : ValidationReport → Bool
  is_clean r = length (errors r) == 0

  abbrev pub rejected_count : ValidationReport → ℕ
  rejected_count r = r.bars_checked - length r.valid_bars

  abbrev pub nothing_yet : Progress
  nothing_yet = record {
    seen_timestamps = [];
    previous_ts = none;
    unordered_reported = false;
    valid_bars = [];
    issues = [];
  }

  unfoldable pub validate_price_bars : List (PriceBar num) → ℕ → ValidationReport
  unfolding check_all
  validate_price_bars bars now =
      let p = check_all now bars nothing_yet in
      record {
        bars_checked = length bars;
        valid_bars = sort (λ (b : PriceBar num). b.ts) p.valid_bars;
        issues = p.issues;
      }
