-- ===== src/Ai/Evidence/Rendered.antt =====
-- Nothing that was asked for is dropped on the way to the model.
use trading_brain.Base.{
  ◌≡◌, ◌≢◌, ◌⊎◌, inl, inr, refl, sym, subst, arith, true, ◌||◌, Option, none, some, List, [], ◌∷◌,
  map, any, All, All-map, ok, Bool-cases, Has, Has-left, Has-right, Has-map, any-Has, any-append,
}
use trading_brain.Ai.Evidence.{
  Text, EvidenceSource, EvidenceItem, is_untrusted, MissingEvidence, Section, EvidencePacket,
  packet_of, has_untrusted_content, Request, item_of, absence_of, add_all, Line, section_lines,
  missing_lines, source_lines, join, parts_of, render,
}
use trading_brain.Ai.Evidence.Answered.{
  items_of, given, IfGiven, IfGiven-map, IsAnswered, add_all_lem,
}

section_lines-Has :
    (s : Section) (i : EvidenceItem) (items : List EvidenceItem)
    → Has i items
    → Has (Line.item i) (section_lines s items)
section_lines-Has s i [] h = absurd h
section_lines-Has s i (j ∷ items) h =
    inr (Has-left (Line.item i) (map Line.item (j ∷ items)) _ (Has-map Line.item i (j ∷ items) h))

missing_lines-Has :
    (m : MissingEvidence) (ms : List MissingEvidence)
    → Has m ms
    → Has (Line.absence m) (missing_lines ms)
missing_lines-Has m [] h = absurd h
missing_lines-Has m (n ∷ ms) h = inr (
    inr
      (Has-left (Line.absence m) (map Line.absence (n ∷ ms)) _ (Has-map Line.absence m (n ∷ ms) h)))

Has-join :
    (x : Line) (lines : List Line) (parts : List (List Line))
    → Has lines parts
    → Has x lines
    → Has x (join parts)
Has-join x lines [] h k = absurd h
Has-join x lines (part ∷ parts) (inl same) k = Has-left x part (join parts) (subst (Has x) same k)
Has-join x lines (part ∷ parts) (inr h) k =
    Has-right x part (join parts) (Has-join x lines parts h k)

section_lines-part :
    (s : Section) (p : EvidencePacket) → Has (section_lines s (items_of s p)) (parts_of p)
section_lines-part Section.market_state p = inr (inl refl)
section_lines-part Section.regime p = inr (inr (inl refl))
section_lines-part Section.quantitative p = inr (inr (inr (inl refl)))
section_lines-part Section.events p = inr (inr (inr (inr (inl refl))))
section_lines-part Section.thesis p = inr (inr (inr (inr (inr (inl refl)))))
section_lines-part Section.contradictions p = inr (inr (inr (inr (inr (inr (inl refl))))))
section_lines-part Section.risk_context p = inr (inr (inr (inr (inr (inr (inr (inl refl)))))))

missing_lines-part : (p : EvidencePacket) → Has (missing_lines p.missing) (parts_of p)
missing_lines-part p = inr (inr (inr (inr (inr (inr (inr (inr (inl refl))))))))

source_lines-part : (p : EvidencePacket) → Has (source_lines (has_untrusted_content p)) (parts_of p)
source_lines-part p = inr (inr (inr (inr (inr (inr (inr (inr (inr (inl refl)))))))))

untrusted_lem :
    (p : EvidencePacket)
    → has_untrusted_content p ≡ (
        any is_untrusted p.market_state
        || (any is_untrusted p.regime
            || (any is_untrusted p.quantitative
                || (any is_untrusted p.events
                    || (any is_untrusted p.thesis
                        || (any is_untrusted p.contradictions
                            || any is_untrusted p.risk_context))))))
untrusted_lem p = simp any-append

-- An item of an untrusted source in a section makes the packet have untrusted content.
untrusted-section :
    (s : Section) (p : EvidencePacket)
    → any is_untrusted (items_of s p) ≡ true
    → has_untrusted_content p ≡ true
untrusted-section s p h = ground (arith, h, untrusted_lem p)

-- What the model is shown of a request: if it gives a value, the item with its source, and if the source
-- is an external document, the note on such sources; and if it gives none, that it is not available.
pub record IsShown (r : Request) (lines : List Line) : Type 0 where
  pub line :
      IfGiven
        (given r)
        (Has (Line.absence (absence_of r)) lines)
        (λ value. Has (Line.item (item_of r value)) lines)
  pub fenced :
      (given r ≡ none)
      ⊎ ((r.source ≢ EvidenceSource.external_document) ⊎ Has Line.untrusted_note lines)

item-line :
    (s : Section) (i : EvidenceItem) (p : EvidencePacket)
    → Has i (items_of s p)
    → Has (Line.item i) (render p)
unfolding render
item-line s i p h =
    Has-join (Line.item i) (section_lines s (items_of s p)) (parts_of p) (section_lines-part s p)
      (section_lines-Has s i (items_of s p) h)

absence-line :
    (m : MissingEvidence) (p : EvidencePacket) → Has m p.missing → Has (Line.absence m) (render p)
unfolding render
absence-line m p h =
    Has-join (Line.absence m) (missing_lines p.missing) (parts_of p) (missing_lines-part p)
      (missing_lines-Has m p.missing h)

item-fenced :
    (s : Section) (i : EvidenceItem) (p : EvidencePacket)
    → Has i (items_of s p)
    → (i.source ≢ EvidenceSource.external_document) ⊎ Has Line.untrusted_note (render p)
unfolding render
item-fenced s i p h = elim (Bool-cases (is_untrusted i)) [
  | inl untrusted ↦
      let noted : has_untrusted_content p ≡ true =
        untrusted-section s p (any-Has is_untrusted i (items_of s p) untrusted h) in
      inr (
        Has-join Line.untrusted_note (source_lines (has_untrusted_content p)) (parts_of p)
          (source_lines-part p)
          (subst (λ b. Has Line.untrusted_note (source_lines b)) (sym noted) (inr (inl refl))))
  | inr trusted ↦ inl (λ external. ground (arith, trusted, external))
]

render-IsShown : (r : Request) (p : EvidencePacket) → IsAnswered r p → IsShown r (render p)
render-IsShown r p answered = record {
  line =
      IfGiven-map (given r) (absence-line (absence_of r) p)
        (λ value. item-line r.section (item_of r value) p) answered;
  fenced = fences (given r) answered;
}
  where
    fences :
        (o : Option Text)
        → IfGiven o
            (Has (absence_of r) p.missing)
            (λ value. Has (item_of r value) (items_of r.section p))
        → (o ≡ none)
          ⊎ ((r.source ≢ EvidenceSource.external_document) ⊎ Has Line.untrusted_note (render p))
    fences none h = inl refl
    fences (some value) h = inr (item-fenced r.section (item_of r value) p h)

-- Whatever a builder is asked to add, if the packet is built then the text for the model shows every
-- request: one that gives a value that is not blank by its item with the source and the origin, and where
-- that is of an external document, the note that such text is untrusted is there; and one that gives no
-- value by a line that says it is not available, and why.
pub render-add_all :
    (ask : Text) (ticker : Option Text) (requests : List Request) (p q : EvidencePacket)
    → packet_of ask ticker ≡ ok p
    → add_all requests p ≡ ok q
    → All (λ r. IsShown r (render q)) requests
render-add_all ask ticker requests p q built added =
    All-map (λ r. IsAnswered r q) (λ r. IsShown r (render q)) requests (λ r h. render-IsShown r q h)
      (add_all_lem requests p q added).1
