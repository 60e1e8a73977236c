-- ===== src/Brain/Intelligence.antt =====
-- `ResearchIntelligenceEngine` of brain/research/intelligence.py: detect, score, queue. An asset comes with
-- the rows that are stored about it; the log line is left out.
pub mod Queueing
use trading_brain.Base.{
  take, ℕ, zero, suc, ◌+◌, Bool, Option, none, some, List, [], ◌∷◌, ◌++◌, map, ltb, ◌==◌,
  if◌then◌else◌, when_some, keep, any, length,
}
use trading_brain.Quant.Floats.{Floats}
use trading_brain.Data.ResearchQueue.{
  Status, ResearchPriority, ResearchQueueEntry, enqueue, get_queue,
}
use trading_brain.Brain.Changes.{
  ChangeType, DetectedChange, ChangeDetectionConfig, RegimeReading, Stored, change_of,
  detect_for_asset, detect_regime_change,
}
use trading_brain.Brain.Priority.{Holding, Tracked, PriorityWeights, is_held_in, score_change}

-- An asset, with what is stored about it.
pub record AssetRows (num : Floats) : Type 0 where
  pub asset_id : ℕ
  pub stored : Stored num

-- What a scan reads of the database, and the settings of the engine.
pub record Scanner (num : Floats) : Type 0 where
  pub config : ChangeDetectionConfig num
  pub weights : PriorityWeights num
  pub regimes : List RegimeReading
  pub tracked : Tracked num
  pub round4 : num.F → ℕ

-- `IntelligenceRunResult`
pub record IntelligenceRunResult : Type 0 where
  pub changes_detected : ℕ
  pub entries_created : ℕ
  pub entries_refreshed : ℕ
  pub assets_scanned : ℕ
  pub top : List ResearchPriority

-- A change, with when the asset was last researched.
pub record Finding (num : Floats) : Type 0 where
  pub change : DetectedChange num
  pub latest_document : Option ℕ

-- What is queued: the table, how many entries are new and how many not, and the priorities.
pub record Queued : Type 0 where
  pub table : List ResearchQueueEntry
  pub created : ℕ
  pub refreshed : ℕ
  pub priorities : List ResearchPriority

-- `sorted(priorities, key=score, reverse=True)`, which keeps the order of equals.
unfoldable pub place : ResearchPriority → List ResearchPriority → List ResearchPriority
place p [] = p ∷ []
place p (q ∷ ps) = let rest = place p ps in if ltb p.score q.score then q ∷ rest else p ∷ q ∷ ps

unfoldable pub by_score : List ResearchPriority → List ResearchPriority
unfolding place
by_score [] = []
by_score (p ∷ ps) = place p (by_score ps)

module _ (num : Floats) (s : Scanner num) (now : ℕ) where
  -- The assets that are watched or held.
  abbrev pub is_relevant : ℕ → Bool
  is_relevant asset_id =
      any (λ (i : ℕ). i == asset_id)
        (s.tracked.watched ++ map (λ h. h.asset_id) (keep (is_held_in num) s.tracked.holdings))

  abbrev pub finding : AssetRows num → DetectedChange num → Finding num
  finding a change = record { change = change; latest_document = a.stored.latest_document }

  -- `_regime_changes`: none if there is no relevant asset.
  unfoldable pub regime_changes : List (AssetRows num) → List (Finding num)
  unfolding detect_regime_change
  regime_changes assets = when_some (detect_regime_change num now s.regimes) [] λ market_change.
      map
        (λ a.
          finding a (change_of num a.asset_id ChangeType.regime_change market_change.magnitude now))
        (keep (λ (a : AssetRows num). is_relevant a.asset_id) assets)

  -- The changes of each asset.
  unfoldable pub asset_changes : List (AssetRows num) → List (Finding num)
  unfolding detect_for_asset
  asset_changes [] = []
  asset_changes (a ∷ assets) =
      map (finding a) (detect_for_asset num s.config a.asset_id now a.stored)
      ++ asset_changes assets

  abbrev pub changes_of : List (AssetRows num) → List (Finding num)
  changes_of assets = asset_changes assets ++ regime_changes assets

  abbrev pub priority_of : Finding num → ResearchPriority
  priority_of f = score_change num s.round4 s.weights now f.latest_document s.tracked f.change

  -- The loop over the changes.
  unfoldable pub queue_all : List (Finding num) → List ResearchQueueEntry → Queued
  unfolding enqueue score_change
  queue_all [] table = record { table = table; created = 0; refreshed = 0; priorities = [] }
  queue_all (f ∷ findings) table =
      let entry = enqueue (priority_of f) f.change.detected_at table in
      let rest = queue_all findings entry.0 in
      record {
        table = rest.table;
        created = if entry.1 then rest.created + 1 else rest.created;
        refreshed = if entry.1 then rest.refreshed else rest.refreshed + 1;
        priorities = priority_of f ∷ rest.priorities;
      }

  -- `scan`
  unfoldable pub scan :
      List (AssetRows num)
      → List ResearchQueueEntry
      → List ResearchQueueEntry × IntelligenceRunResult
  unfolding queue_all asset_changes regime_changes by_score
  scan assets table =
      let changes = changes_of assets in
      let queued = queue_all changes table in
      (
        queued.table,
        record {
          changes_detected = length changes;
          entries_created = queued.created;
          entries_refreshed = queued.refreshed;
          assets_scanned = length assets;
          top = take (by_score queued.priorities) 10;
        },
      )

-- `pending_queue`
abbrev pub pending_queue : Option ℕ → List ResearchQueueEntry → List ResearchQueueEntry
pending_queue limit table =
    when_some limit (get_queue Status.pending table) (take (get_queue Status.pending table))
