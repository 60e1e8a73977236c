-- ===== src/Ai/Evidence/Answered.antt =====
-- What becomes of the requests to the builder of a packet.
use trading_brain.Base.{
  ◌≡◌, ◌⊎◌, inl, inr, refl, sym, subst, arith, Option, none, some, if◌then◌else◌, List, [], ◌∷◌,
  ◌++◌, All, ok, Bool-cases, Option-cases, >>=-eq-ok, Has, Has-left, Has-right,
}
use trading_brain.Ai.Schemas.{Text, is_blank}
use trading_brain.Ai.Evidence.{
  EvidenceItem, item_post_init, MissingEvidence, Section, EvidencePacket, append_to, add,
  add_missing, Request, item_of, absence_of, add_or_missing, add_all,
}

abbrev pub items_of : Section → EvidencePacket → List EvidenceItem
items_of Section.market_state p = p.market_state
items_of Section.regime p = p.regime
items_of Section.quantitative p = p.quantitative
items_of Section.events p = p.events
items_of Section.thesis p = p.thesis
items_of Section.contradictions p = p.contradictions
items_of Section.risk_context p = p.risk_context

append_to-same :
    (s : Section) (i : EvidenceItem) (p : EvidencePacket) → Has i (items_of s (append_to s i p))
append_to-same Section.market_state i p = Has-right i p.market_state _ (inl refl)
append_to-same Section.regime i p = Has-right i p.regime _ (inl refl)
append_to-same Section.quantitative i p = Has-right i p.quantitative _ (inl refl)
append_to-same Section.events i p = Has-right i p.events _ (inl refl)
append_to-same Section.thesis i p = Has-right i p.thesis _ (inl refl)
append_to-same Section.contradictions i p = Has-right i p.contradictions _ (inl refl)
append_to-same Section.risk_context i p = Has-right i p.risk_context _ (inl refl)

append_to-cases :
    (s t : Section) (j : EvidenceItem) (p : EvidencePacket)
    → (items_of t (append_to s j p) ≡ items_of t p)
      ⊎ (items_of t (append_to s j p) ≡ items_of t p ++ j ∷ [])
append_to-cases s t j p = ground arith

-- What a section holds stays in it.
Has-append_to :
    (s t : Section) (i j : EvidenceItem) (p : EvidencePacket)
    → Has i (items_of t p)
    → Has i (items_of t (append_to s j p))
Has-append_to s t i j p h = elim (append_to-cases s t j p) [
  | inl same ↦ subst (Has i) (sym same) h
  | inr longer ↦ subst (Has i) (sym longer) (Has-left i (items_of t p) (j ∷ []) h)
]

missing-append_to :
    (s : Section) (j : EvidenceItem) (p : EvidencePacket) → (append_to s j p).missing ≡ p.missing
missing-append_to s j p = ground arith

-- The value that a request gives, where it gives one that is not blank.
abbrev pub given : Request → Option Text
given r = elim r.value [ none ↦ none | some value ↦ if is_blank value then none else some value ]

-- One statement where there is no value, and one about the value where there is one.
abbrev pub IfGiven : Option Text → Type 0 → (Text → Type 0) → Type 0
IfGiven none Absent Given = Absent
IfGiven (some value) Absent Given = Given value

pub IfGiven-map :
    (o : Option Text) {Absent Absent' : Type 0} {Given Given' : Text → Type 0}
    → (Absent → Absent')
    → ((value : Text) → Given value → Given' value)
    → IfGiven o Absent Given
    → IfGiven o Absent' Given'
IfGiven-map none f g h = f h
IfGiven-map (some value) f g h = g value h

-- What became of a request: if it gives a value, its item is in the section that it names, and if it
-- gives none, its absence is recorded.
abbrev pub IsAnswered : Request → EvidencePacket → Type 0
IsAnswered r p =
    IfGiven (given r) (Has (absence_of r) p.missing)
      (λ value. Has (item_of r value) (items_of r.section p))

pub record IsGrown (p q : EvidencePacket) : Type 0 where
  pub items : (s : Section) (i : EvidenceItem) → Has i (items_of s p) → Has i (items_of s q)
  pub absences : (m : MissingEvidence) → Has m p.missing → Has m q.missing

items_of-add_missing :
    (s : Section) (m : MissingEvidence) (p : EvidencePacket)
    → items_of s (add_missing m p) ≡ items_of s p
items_of-add_missing s m p = ground arith

IsGrown-add_missing : (m : MissingEvidence) (p : EvidencePacket) → IsGrown p (add_missing m p)
IsGrown-add_missing m p = record {
  items = λ s i h. subst (Has i) (sym (items_of-add_missing s m p)) h;
  absences = λ n h. Has-left n p.missing (m ∷ []) h;
}

IsAnswered-given :
    (r : Request) (p : EvidencePacket) (value : Text)
    → given r ≡ some value
    → Has (item_of r value) (items_of r.section p)
    → IsAnswered r p
IsAnswered-given r p value gives h =
    subst
      (λ o.
        IfGiven o (Has (absence_of r) p.missing) (λ v. Has (item_of r v) (items_of r.section p)))
      (sym gives) h

IsAnswered-absent :
    (r : Request) (p : EvidencePacket)
    → given r ≡ none
    → Has (absence_of r) p.missing
    → IsAnswered r p
IsAnswered-absent r p gives h =
    subst
      (λ o.
        IfGiven o (Has (absence_of r) p.missing) (λ v. Has (item_of r v) (items_of r.section p)))
      (sym gives) h

recorded_absence :
    (r : Request) (p q : EvidencePacket)
    → given r ≡ none
    → add_missing (absence_of r) p ≡ q
    → IsGrown p q × IsAnswered r q
recorded_absence r p q absent same =
    subst (λ x. IsGrown p x × IsAnswered r x) same
      (
        IsGrown-add_missing (absence_of r) p,
        IsAnswered-absent r (add_missing (absence_of r) p) absent
            (Has-right (absence_of r) p.missing _ (inl refl)),
      )

recorded_item :
    (r : Request) (p q : EvidencePacket) (value : Text)
    → given r ≡ some value
    → append_to r.section (item_of r value) p ≡ q
    → IsGrown p q × IsAnswered r q
recorded_item r p q value gives same =
    let i : EvidenceItem = item_of r value in
    subst (λ x. IsGrown p x × IsAnswered r x) same
      (
        record {
          items = λ s j k. Has-append_to r.section s j i p k;
          absences = λ m k. subst (Has m) (sym (missing-append_to r.section i p)) k;
        },
        IsAnswered-given r (append_to r.section i p) value gives (append_to-same r.section i p),
      )

add_or_missing_lem :
    (r : Request) (p q : EvidencePacket) → add_or_missing r p ≡ ok q → IsGrown p q × IsAnswered r q
unfolding add_or_missing add item_post_init
add_or_missing_lem r p q h = elim (Option-cases r.value) [
  | inl absent ↦ recorded_absence r p q (ground (arith, absent)) (ground (arith, absent, h))
  | inr (value, some_value) ↦ elim (Bool-cases (is_blank value)) [
    | inl nothing ↦
        recorded_absence r p q (ground (arith, some_value, nothing))
          (ground (arith, some_value, nothing, h))
    | inr something ↦
        recorded_item r p q value (ground (arith, some_value, something))
          (ground (arith, some_value, something, h))
  ]
]

IsAnswered-grown :
    (r : Request) (p q : EvidencePacket) → IsGrown p q → IsAnswered r p → IsAnswered r q
IsAnswered-grown r p q g =
    IfGiven-map (given r) (g.absences (absence_of r)) (λ v. g.items r.section (item_of r v))

pub add_all_lem :
    (requests : List Request) (p q : EvidencePacket)
    → add_all requests p ≡ ok q
    → IsGrown p q × All (λ r. IsAnswered r q) requests
unfolding add_all
add_all_lem [] p q h =
    let same : p ≡ q = ground (arith, h) in
    subst (λ x. IsGrown p x × Unit {0}) same
      (record { items = λ s i k. k; absences = λ m k. k }, tt)
add_all_lem (r ∷ requests) p q h =
    let (between, first_step, later) = >>=-eq-ok (add_or_missing r p) _ h in
    let (grown, answered) = add_or_missing_lem r p between first_step in
    let (grown_later, answered_later) = add_all_lem requests between q later in
    (
      record {
        items = λ s i k. grown_later.items s i (grown.items s i k);
        absences = λ m k. grown_later.absences m (grown.absences m k);
      },
      (IsAnswered-grown r between q grown_later answered, answered_later),
    )
