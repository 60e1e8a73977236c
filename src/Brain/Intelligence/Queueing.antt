-- ===== src/Brain/Intelligence/Queueing.antt =====
-- What a scan leaves in the research queue.
use trading_brain.Base.{
  ℕ, ◌+◌, ◌≡◌, refl, arith, true, List, [], ◌∷◌, length, All, All-map, Bool-cases, inl, inr,
}
use trading_brain.Quant.Floats.{Floats}
use trading_brain.Data.ResearchQueue.{ResearchPriority, ResearchQueueEntry, is_open_for, enqueue}
use trading_brain.Data.ResearchQueue.Unique.{IsUnique, has_open, enqueue-IsUnique}
use trading_brain.Brain.Intelligence.{
  AssetRows, Scanner, Finding, changes_of, priority_of, queue_all, scan,
}

-- An open entry stays open, whatever is enqueued.
has_open-enqueue :
    (p q : ResearchPriority) (t : ℕ) (table : List ResearchQueueEntry)
    → has_open p table ≡ true
    → has_open p (enqueue q t table).0 ≡ true
unfolding enqueue
has_open-enqueue p q t [] h = ground (arith, h)
has_open-enqueue p q t (e ∷ table) h = elim (Bool-cases (is_open_for p e)) [
  | inl here ↦ ground (arith, here)
  | inr other ↦ ground (arith, other, h, has_open-enqueue p q t table (ground (arith, other, h)))
]

module _ (num : Floats) (s : Scanner num) (now : ℕ) where
  -- The change has an open entry.
  abbrev pub IsQueued : List ResearchQueueEntry → Finding num → Type 0
  IsQueued table f = has_open (priority_of num s now f) table ≡ true

  has_open-queue_all :
      (p : ResearchPriority) (findings : List (Finding num)) (table : List ResearchQueueEntry)
      → has_open p table ≡ true
      → has_open p (queue_all num s now findings table).table ≡ true
  unfolding queue_all
  has_open-queue_all p [] table h = h
  has_open-queue_all p (f ∷ findings) table h =
      let q = priority_of num s now f in
      has_open-queue_all p findings (enqueue q f.change.detected_at table).0
        (has_open-enqueue p q f.change.detected_at table h)

  queue_all_lem :
      (findings : List (Finding num)) (table : List ResearchQueueEntry)
      → IsUnique table
      → let q = queue_all num s now findings table in
        IsUnique q.table
        × All (IsQueued q.table) findings
        × (q.created + q.refreshed ≡ length findings)
        × (length q.table ≡ length table + q.created)
  unfolding queue_all
  queue_all_lem [] table h = (h, tt, omega arith, omega arith)
  queue_all_lem (f ∷ findings) table h =
      let p = priority_of num s now f in
      let (unique, added, grown, there) = enqueue-IsUnique p f.change.detected_at table h in
      let next = (enqueue p f.change.detected_at table).0 in
      let (unique', queued, counted, longer) = queue_all_lem findings next unique in
      (
        unique',
        (has_open-queue_all p findings next there, queued),
        ground (arith, counted),
        ground (arith, added, grown, longer),
      )

  -- Nothing is new if every change has an open entry.
  queue_all-again :
      (findings : List (Finding num)) (table : List ResearchQueueEntry)
      → IsUnique table
      → All (IsQueued table) findings
      → (queue_all num s now findings table).created ≡ 0
  unfolding queue_all
  queue_all-again [] table h queued = refl
  queue_all-again (f ∷ findings) table h queued =
      let p = priority_of num s now f in
      let t = f.change.detected_at in
      let (unique, added, grown, there) = enqueue-IsUnique p t table h in
      ground (
        arith,
        added,
        queued.0,
        queue_all-again findings (enqueue p t table).0 unique (
            All-map (IsQueued table) (IsQueued (enqueue p t table).0) findings
              (λ g k. has_open-enqueue (priority_of num s now g) p t table k) queued.1),
      )

  -- A scan keeps one open entry at most for each asset and kind of change; every change that is detected has
  -- one afterwards; each change counts as created or as refreshed, and the table grows by those created.
  pub scan_lem :
      (assets : List (AssetRows num)) (table : List ResearchQueueEntry)
      → IsUnique table
      → let (q, r) = scan num s now assets table in
        IsUnique q
        × All (IsQueued q) (changes_of num s now assets)
        × (r.entries_created + r.entries_refreshed ≡ r.changes_detected)
        × (length q ≡ length table + r.entries_created)
  unfolding scan
  scan_lem assets table h = queue_all_lem (changes_of num s now assets) table h

  -- To scan again with nothing new creates no entry: every change is refreshed, and the table has the same
  -- length.
  pub scan-scan :
      (assets : List (AssetRows num)) (table : List ResearchQueueEntry)
      → IsUnique table
      → let once = (scan num s now assets table).0 in
        let (q, r) = scan num s now assets once in
        (r.entries_created ≡ 0)
        × (r.entries_refreshed ≡ r.changes_detected)
        × (length q ≡ length once)
  unfolding scan
  scan-scan assets table h =
      let findings = changes_of num s now assets in
      let (unique, queued, counted, longer) = queue_all_lem findings table h in
      let once = (queue_all num s now findings table).table in
      let none_new = queue_all-again findings once unique queued in
      let (unique', queued', counted', longer') = queue_all_lem findings once unique in
      (none_new, omega (arith, none_new, counted'), omega (arith, none_new, longer'))
