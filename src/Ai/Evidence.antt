-- ===== src/Ai/Evidence.antt =====
-- ai/evidence.py: the packets of evidence that a model is given, and the builder of them. A text is a list
-- of characters by number; what the code asks of one is whether it is blank. A rendered packet is the list of
-- its lines.
pub mod Answered
pub mod Rendered
use trading_brain.Base.{
  ℕ, ◌+◌, Bool, true, false, not, ◌&&◌, ◌||◌, Option, none, some, List, [], ◌∷◌, ◌++◌, map, ◌==◌,
  leb, if◌then◌else◌, when_some, any, Result, ok, err, ◌>>=◌,
}
use trading_brain.Ai.Schemas.{Text, is_blank}

pub data EvidenceSource : Type 0 where
  quant market_data fundamentals vault_note prior_research external_document : EvidenceSource

-- `PacketError`
pub data PacketError : Type 0 where
  no_origin no_question : PacketError

pub record EvidenceItem : Type 0 where
  pub label : Text
  pub value : Text
  pub source : EvidenceSource
  pub origin : Text
  pub as_of : Option ℕ

-- `EvidenceItem.__post_init__`
unfoldable pub item_post_init : EvidenceItem → Result PacketError EvidenceItem
item_post_init i = if is_blank i.origin then err PacketError.no_origin else ok i

-- `is_untrusted`
abbrev pub is_untrusted : EvidenceItem → Bool
is_untrusted i = elim i.source [ EvidenceSource.external_document ↦ true | _ ↦ false ]

pub record MissingEvidence : Type 0 where
  pub label : Text
  pub reason : Text

-- The fields of a packet that hold evidence, in the order in which they are rendered.
pub data Section : Type 0 where
  market_state regime quantitative events thesis contradictions risk_context : Section

pub record EvidencePacket : Type 0 where
  pub question : Text
  pub ticker : Option Text
  pub market_state : List EvidenceItem
  pub regime : List EvidenceItem
  pub quantitative : List EvidenceItem
  pub events : List EvidenceItem
  pub thesis : List EvidenceItem
  pub contradictions : List EvidenceItem
  pub risk_context : List EvidenceItem
  pub missing : List MissingEvidence

-- `EvidencePacketBuilder.__init__`, with `EvidencePacket.__post_init__`
unfoldable pub packet_of : Text → Option Text → Result PacketError EvidencePacket
packet_of question ticker =
    if is_blank question
    then err PacketError.no_question
    else ok (record {
      question = question;
      ticker = ticker;
      market_state = [];
      regime = [];
      quantitative = [];
      events = [];
      thesis = [];
      contradictions = [];
      risk_context = [];
      missing = [];
    })

-- `all_items`, `has_untrusted_content` and `is_empty`
abbrev pub all_items : EvidencePacket → List EvidenceItem
all_items p =
    p.market_state
    ++ (p.regime
        ++ (p.quantitative ++ (p.events ++ (p.thesis ++ (p.contradictions ++ p.risk_context)))))

abbrev pub has_untrusted_content : EvidencePacket → Bool
has_untrusted_content p = any is_untrusted (all_items p)

abbrev pub is_empty : EvidencePacket → Bool
is_empty p = elim (all_items p) [ [] ↦ true | i ∷ items ↦ false ]

-- `getattr(packet, section).append(item)`
abbrev pub append_to : Section → EvidenceItem → EvidencePacket → EvidencePacket
append_to Section.market_state i p = record p { market_state = p.market_state ++ i ∷ [] }
append_to Section.regime i p = record p { regime = p.regime ++ i ∷ [] }
append_to Section.quantitative i p = record p { quantitative = p.quantitative ++ i ∷ [] }
append_to Section.events i p = record p { events = p.events ++ i ∷ [] }
append_to Section.thesis i p = record p { thesis = p.thesis ++ i ∷ [] }
append_to Section.contradictions i p = record p { contradictions = p.contradictions ++ i ∷ [] }
append_to Section.risk_context i p = record p { risk_context = p.risk_context ++ i ∷ [] }

-- `EvidencePacketBuilder.add`
unfoldable pub add : Section → EvidenceItem → EvidencePacket → Result PacketError EvidencePacket
unfolding item_post_init
add section i p = item_post_init i >>= λ item. ok (append_to section item p)

-- `EvidencePacketBuilder.missing`
abbrev pub add_missing : MissingEvidence → EvidencePacket → EvidencePacket
add_missing m p = record p { missing = p.missing ++ m ∷ [] }

-- What a call of `add_or_missing` asks for: a value that may be absent or blank, and the reason to give then.
pub record Request : Type 0 where
  pub section : Section
  pub label : Text
  pub value : Option Text
  pub source : EvidenceSource
  pub origin : Text
  pub as_of : Option ℕ
  pub missing_reason : Text

abbrev pub item_of : Request → Text → EvidenceItem
item_of r value = record {
  label = r.label;
  value = value;
  source = r.source;
  origin = r.origin;
  as_of = r.as_of;
}

abbrev pub absence_of : Request → MissingEvidence
absence_of r = record { label = r.label; reason = r.missing_reason }

-- `EvidencePacketBuilder.add_or_missing`
unfoldable pub add_or_missing : Request → EvidencePacket → Result PacketError EvidencePacket
unfolding add
add_or_missing r p = when_some r.value (ok (add_missing (absence_of r) p)) λ value.
    if is_blank value then ok (add_missing (absence_of r) p) else add r.section (item_of r value) p

-- The calls of a caller, one after another.
unfoldable pub add_all : List Request → EvidencePacket → Result PacketError EvidencePacket
unfolding add_or_missing
add_all [] p = ok p
add_all (r ∷ requests) p = add_or_missing r p >>= λ q. add_all requests q

-- The lines of a rendered packet. Their fixed texts are the constructors.
pub data Line : Type 0 where
  title : Option Text → Line
  assembled blank : Line
  heading : Section → Line
  item : EvidenceItem → Line
  unavailable_heading unavailable_note : Line
  absence : MissingEvidence → Line
  sources_heading untrusted_note : Line
  question_heading : Line
  question : Text → Line
  closing : Line

-- One section, which is left out if it has no items.
abbrev pub section_lines : Section → List EvidenceItem → List Line
section_lines s [] = []
section_lines s (i ∷ items) = Line.heading s ∷ map Line.item (i ∷ items) ++ Line.blank ∷ []

abbrev pub missing_lines : List MissingEvidence → List Line
missing_lines [] = []
missing_lines (m ∷ ms) =
    Line.unavailable_heading ∷ Line.unavailable_note ∷ map Line.absence (m ∷ ms) ++ Line.blank ∷ []

abbrev pub source_lines : Bool → List Line
source_lines untrusted =
    if untrusted then Line.sources_heading ∷ Line.untrusted_note ∷ Line.blank ∷ [] else []

abbrev pub join : List (List Line) → List Line
join [] = []
join (lines ∷ parts) = lines ++ join parts

-- `if self.ticker`: the empty text counts as none.
abbrev pub shown_ticker : Option Text → Option Text
shown_ticker none = none
shown_ticker (some []) = none
shown_ticker (some (c ∷ s)) = some (c ∷ s)

-- The parts of a rendered packet.
abbrev pub parts_of : EvidencePacket → List (List Line)
parts_of p =
    (Line.title (shown_ticker p.ticker) ∷ Line.assembled ∷ Line.blank ∷ [])
    ∷ section_lines Section.market_state p.market_state
    ∷ section_lines Section.regime p.regime
    ∷ section_lines Section.quantitative p.quantitative
    ∷ section_lines Section.events p.events
    ∷ section_lines Section.thesis p.thesis
    ∷ section_lines Section.contradictions p.contradictions
    ∷ section_lines Section.risk_context p.risk_context
    ∷ missing_lines p.missing
    ∷ source_lines (has_untrusted_content p)
    ∷ (Line.question_heading ∷ Line.question p.question ∷ Line.blank ∷ Line.closing ∷ [])
    ∷ []

-- `EvidencePacket.render`
unfoldable pub render : EvidencePacket → List Line
render p = join (parts_of p)
