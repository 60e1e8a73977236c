-- ===== src/Brain/Learning/Theses.antt =====
-- `thesis_accuracy` of brain/learning/metrics.py: how many theses stand how, and how long each took to be
-- invalidated for the first time. The reviews of the table are in the order of their times.
use trading_brain.Base.{
  ℕ, ◌+◌, ◌-◌, ◌/◌, ◌≡◌, refl, subst, arith, Bool-cases, inl, inr, Bool, true, false, not, ◌||◌,
  Option, List, [], ◌∷◌, leb, ◌==◌, if◌then◌else◌, when_some, any, length, keep, first,
}
use trading_brain.Brain.Signals.Context.{Assessment, is_invalidated}

-- A row of the table of theses.
pub record ThesisRow : Type 0 where
  pub id : ℕ
  pub current_assessment : Assessment
  pub created_at : Option ℕ

-- `ThesisReviewRecord`
pub record ThesisReviewRecord : Type 0 where
  pub thesis_id : ℕ
  pub assessment : Assessment
  pub reviewed_at : ℕ

-- `ThesisAccuracy`
pub record ThesisAccuracy : Type 0 where
  pub total_theses : ℕ
  pub strengthened : ℕ
  pub weakened : ℕ
  pub invalidated : ℕ
  pub intact : ℕ
  pub reviews_recorded : ℕ
  pub days_to_invalidation : List ℕ

-- What the assessment of one thesis adds.
abbrev pub with_assessment : Assessment → ThesisAccuracy → ThesisAccuracy
with_assessment Assessment.strengthened r = record r { strengthened = r.strengthened + 1 }
with_assessment Assessment.weakened r = record r { weakened = r.weakened + 1 }
with_assessment Assessment.invalidated r = record r { invalidated = r.invalidated + 1 }
with_assessment Assessment.intact r = record r { intact = r.intact + 1 }
with_assessment Assessment.unassessed r = r

unfoldable pub count_assessments : List ThesisRow → ThesisAccuracy → ThesisAccuracy
count_assessments [] r = r
count_assessments (t ∷ theses) r = count_assessments theses (with_assessment t.current_assessment r)

-- `session.get(Thesis, thesis_id)`
abbrev pub find_thesis : ℕ → List ThesisRow → Option ThesisRow
find_thesis thesis_id theses = first (keep (λ (t : ThesisRow). t.id == thesis_id) theses)

-- The whole days from the creation of a thesis to a review, if it was created and not later than that.
abbrev pub sample_of : ℕ → Option ThesisRow → List ℕ
sample_of reviewed_at found = when_some found [] λ t. when_some t.created_at [] λ created_at.
    if leb created_at reviewed_at then (reviewed_at - created_at) / 86_400_000_000 ∷ [] else []

abbrev pub is_skipped : List ℕ → ThesisReviewRecord → Bool
is_skipped seen r = not (is_invalidated r.assessment) || any (λ (i : ℕ). i == r.thesis_id) seen

-- The loop over the reviews: the first that invalidates a thesis counts.
unfoldable pub days_from : List ThesisRow → List ℕ → List ThesisReviewRecord → List ℕ
days_from theses seen [] = []
days_from theses seen (r ∷ records) =
    let skipped = days_from theses seen records in
    let counted = days_from theses (r.thesis_id ∷ seen) records in
    if is_skipped seen r
    then skipped
    else (elim (sample_of r.reviewed_at (find_thesis r.thesis_id theses)) [
      | [] ↦ counted
      | days ∷ rest ↦ days ∷ counted
    ])

-- `thesis_accuracy`
unfoldable pub thesis_accuracy : List ThesisRow → List ThesisReviewRecord → ThesisAccuracy
unfolding count_assessments days_from
thesis_accuracy theses records = count_assessments theses (record {
  total_theses = length theses;
  strengthened = 0;
  weakened = 0;
  invalidated = 0;
  intact = 0;
  reviews_recorded = length records;
  days_to_invalidation = days_from theses [] records;
})

abbrev assessed_total : ThesisAccuracy → ℕ
assessed_total r = r.strengthened + r.weakened + r.invalidated + r.intact

abbrev is_assessed : ThesisRow → Bool
is_assessed t = elim t.current_assessment [ Assessment.unassessed ↦ false | _ ↦ true ]

count_assessments_lem :
    (theses : List ThesisRow) (r : ThesisAccuracy)
    → (assessed_total (count_assessments theses r)
        ≡ length (keep is_assessed theses) + assessed_total r)
      × ((count_assessments theses r).days_to_invalidation ≡ r.days_to_invalidation)
      × ((count_assessments theses r).total_theses ≡ r.total_theses)
unfolding count_assessments
count_assessments_lem [] r = (omega arith, refl, refl)
count_assessments_lem (t ∷ theses) r =
    let (total, days, all) =
      count_assessments_lem theses (with_assessment t.current_assessment r) in
    (ground (arith, total), ground (arith, days), ground (arith, all))

-- A thesis that is in the set of those that were seen takes no part, however often it is reviewed again.
days_from-seen :
    (theses : List ThesisRow) (i : ℕ) (seen : List ℕ) (records : List ThesisReviewRecord)
    → any (λ (j : ℕ). j == i) seen ≡ true
    → days_from theses seen records
      ≡ days_from theses seen (keep (λ (r : ThesisReviewRecord). not (r.thesis_id == i)) records)
unfolding days_from
days_from-seen theses i seen [] h = refl
days_from-seen theses i seen (r ∷ records) h =
    let skipped = days_from-seen theses i seen records h in
    let counted = days_from-seen theses i (r.thesis_id ∷ seen) records (ground (arith, h)) in
    elim (Bool-cases (r.thesis_id == i)) [
      | inl same ↦
          let there : any (λ (j : ℕ). j == r.thesis_id) seen ≡ true =
            subst (λ k. any (λ (j : ℕ). j == k) seen ≡ true) {x = i} (ground (arith, same)) h in
          ground (arith, same, there, skipped)
      | inr other ↦ rw other (ground (arith, skipped, counted))
    ]

-- The four counts add up to the number of theses that are assessed, each once, and the samples of days are
-- those of the first invalidations.
thesis_accuracy_balances :
    (theses : List ThesisRow) (records : List ThesisReviewRecord)
    → let a = thesis_accuracy theses records in
      (assessed_total a ≡ length (keep is_assessed theses))
      × (a.total_theses ≡ length theses)
      × (a.days_to_invalidation ≡ days_from theses [] records)
unfolding thesis_accuracy
thesis_accuracy_balances theses records =
    let (total, days, all) = count_assessments_lem theses _ in (omega (arith, total), all, days)
