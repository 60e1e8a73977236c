-- ===== src/Brain/ScanTests.antt =====
-- A scan on concrete inputs, in whole numbers: an asset with a weakened thesis that was never researched and
-- is watched, at a change of the regime.
use trading_brain.Base.{◌+◌, ◌≡◌, refl, none, some, List, [], ◌∷◌, All, length}
use trading_brain.Quant.Whole.{whole_numbers, magnitude}
use trading_brain.Data.ResearchQueue.{Status, ResearchQueueEntry}
use trading_brain.Data.ResearchQueue.Unique.{IsUnique}
use trading_brain.Brain.Signals.Context.{Assessment}
use trading_brain.Brain.Changes.{default_config}
use trading_brain.Brain.Priority.{default_weights}
use trading_brain.Brain.Intelligence.{AssetRows, Scanner, changes_of, scan}
use trading_brain.Brain.Intelligence.Queueing.{IsQueued, scan_lem, scan-scan}

abbrev scanner : Scanner whole_numbers
scanner = record {
  config = default_config whole_numbers;
  weights = default_weights whole_numbers;
  regimes =
      record { regime = 1; volatility_regime = 2; risk_regime = 3 }
      ∷ record { regime = 4; volatility_regime = 2; risk_regime = 3 }
      ∷ [];
  tracked = record { holdings = []; watched = 7 ∷ [] };
  round4 = magnitude;
}

abbrev assets : List (AssetRows whole_numbers)
assets =
    record {
      asset_id = 7;
      stored = record {
        prices = [];
        events = [];
        thesis =
            some (record { current_assessment = Assessment.weakened; last_reviewed_at = none });
        latest_document = none;
      };
    }
    ∷ []

-- The violation of the thesis was queued before and is dismissed.
abbrev table : List ResearchQueueEntry
table =
    record {
      priority = record {
        asset_id = 7;
        change_type = 4;
        score = 9000;
        importance = 1;
        novelty = 0;
        portfolio_impact = 0;
        watchlist_relevance = 0;
      };
      status = Status.dismissed;
      detected_at = 3;
      processed_at = some 4;
      research_document_id = none;
    }
    ∷ []

created_three : (scan whole_numbers scanner 100 assets table).1.entries_created ≡ 3
unfolding scan
created_three = refl

scan_lem_example :
    let (q, r) = scan whole_numbers scanner 100 assets table in
    IsUnique q
    × All (IsQueued whole_numbers scanner 100 q) (changes_of whole_numbers scanner 100 assets)
    × (r.entries_created + r.entries_refreshed ≡ r.changes_detected)
    × (length q ≡ 1 + r.entries_created)
scan_lem_example = scan_lem whole_numbers scanner 100 assets table (tt, tt)

scan-scan_example :
    let once = (scan whole_numbers scanner 100 assets table).0 in
    let (q, r) = scan whole_numbers scanner 100 assets once in
    (r.entries_created ≡ 0) × (r.entries_refreshed ≡ r.changes_detected) × (length q ≡ length once)
scan-scan_example = scan-scan whole_numbers scanner 100 assets table (tt, tt)
