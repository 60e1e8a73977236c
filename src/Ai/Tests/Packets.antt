-- ===== src/Ai/Tests/Packets.antt =====
-- Escalation and evidence on concrete inputs.
use trading_brain.Base.{◌≡◌, refl, true, none, some, List, [], ◌∷◌, All, ok, arith}
use trading_brain.Quant.Whole.{whole_numbers}
use trading_brain.Brain.Signals.Context.{Assessment}
use trading_brain.Brain.Changes.{Stored, default_config, detect_for_asset}
use trading_brain.Ai.Escalation.{evaluate_all}
use trading_brain.Ai.Escalation.Triggers.{IsQuiet, IsRoutine, evaluate_all-detect_for_asset}
use trading_brain.Ai.Schemas.{is_blank}
use trading_brain.Ai.Evidence.{
  EvidenceSource, Section, EvidencePacket, Request, packet_of, add_all, render,
}
use trading_brain.Ai.Evidence.Rendered.{IsShown, render-add_all}

abbrev stored : Stored whole_numbers
stored = record {
  prices = [];
  events = record { related_asset_id = 8; is_earnings = true; occurred_at = 900 } ∷ [];
  thesis = some (record { current_assessment = Assessment.intact; last_reviewed_at = some 500 });
  latest_document = none;
}

stored-IsRoutine : IsRoutine whole_numbers (default_config whole_numbers) 7 1000 stored
stored-IsRoutine = record { earnings = refl; thesis = λ t found. ground (arith, found) }

evaluate_all-detect_for_asset_example : All (IsQuiet whole_numbers) (
    evaluate_all whole_numbers
      (detect_for_asset whole_numbers (default_config whole_numbers) 7 1000 stored))
evaluate_all-detect_for_asset_example =
    evaluate_all-detect_for_asset whole_numbers (default_config whole_numbers) 7 1000 stored
      stored-IsRoutine

-- A text of an external document, and a value that is blank.
abbrev requests : List Request
requests =
    record {
      section = Section.events;
      label = 97 ∷ [];
      value = some (98 ∷ []);
      source = EvidenceSource.external_document;
      origin = 99 ∷ [];
      as_of = some 5;
      missing_reason = [];
    }
    ∷ record {
      section = Section.thesis;
      label = 100 ∷ [];
      value = some (32 ∷ []);
      source = EvidenceSource.vault_note;
      origin = [];
      as_of = none;
      missing_reason = 101 ∷ [];
    }
    ∷ []

abbrev empty_packet : EvidencePacket
empty_packet = record {
  question = 63 ∷ [];
  ticker = none;
  market_state = [];
  regime = [];
  quantitative = [];
  events = [];
  thesis = [];
  contradictions = [];
  risk_context = [];
  missing = [];
}

abbrev packet : EvidencePacket
packet = record empty_packet {
  events =
      record {
        label = 97 ∷ [];
        value = 98 ∷ [];
        source = EvidenceSource.external_document;
        origin = 99 ∷ [];
        as_of = some 5;
      }
      ∷ [];
  missing = record { label = 100 ∷ []; reason = 101 ∷ [] } ∷ [];
}

built : packet_of (63 ∷ []) none ≡ ok empty_packet
unfolding packet_of is_blank
built = refl

filled : add_all requests empty_packet ≡ ok packet
unfolding add_all is_blank
filled = refl

render-add_all_example : All (λ r. IsShown r (render packet)) requests
render-add_all_example = render-add_all (63 ∷ []) none requests empty_packet packet built filled
