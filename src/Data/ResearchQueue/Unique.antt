-- ===== src/Data/ResearchQueue/Unique.antt =====
-- There is one open entry for each asset and kind of change.
use trading_brain.Base.{
  ℕ, ◌+◌, ◌≡◌, refl, Bool, true, false, not, ◌&&◌, List, [], ◌∷◌, arith, if◌then◌else◌, keep, any,
  length, All, All-map, if_ind, Bool-cases, inl, inr,
}
use trading_brain.Data.ResearchQueue.{
  Status, is_open, same_status, ResearchPriority, ResearchQueueEntry, is_open_for, enqueue,
  is_before, place, in_order, get_queue,
}

-- Two open entries for the same thing.
abbrev pub clash : ResearchQueueEntry → ResearchQueueEntry → Bool
clash a b = is_open a.status && is_open_for a.priority b

abbrev pub IsUnique : List ResearchQueueEntry → Type 0
IsUnique [] = Unit
IsUnique (e ∷ table) = All (λ f. clash e f ≡ false) table × IsUnique table

-- Whether an open entry for the priority is there.
abbrev pub has_open : ResearchPriority → List ResearchQueueEntry → Bool
has_open p = any (is_open_for p)

clash-enqueue :
    (e : ResearchQueueEntry) (p : ResearchPriority) (t : ℕ) (table : List ResearchQueueEntry)
    → is_open_for p e ≡ false
    → All (λ f. clash e f ≡ false) table
    → All (λ f. clash e f ≡ false) (enqueue p t table).0
unfolding enqueue
clash-enqueue e p t [] other h = (ground (arith, other), tt)
clash-enqueue e p t (f ∷ table) other h =
    if_ind (λ (r : List ResearchQueueEntry × Bool). All (λ f. clash e f ≡ false) r.0)
      (is_open_for p f) (λ _. (ground (arith, h.0), h.1))
      (λ _. (h.0, clash-enqueue e p t table other h.1))

-- `enqueue` keeps the open entries unique, and adds an entry exactly if there was no open one for the
-- asset and the kind of change; afterwards there is one.
pub enqueue-IsUnique :
    (p : ResearchPriority) (t : ℕ) (table : List ResearchQueueEntry)
    → IsUnique table
    → IsUnique (enqueue p t table).0
      × ((enqueue p t table).1 ≡ not (has_open p table))
      × (length (enqueue p t table).0 ≡ length table + (if has_open p table then 0 else 1))
      × (has_open p (enqueue p t table).0 ≡ true)
unfolding enqueue
enqueue-IsUnique p t [] u = ((tt, tt), refl, omega arith, ground arith)
enqueue-IsUnique p t (e ∷ table) u = elim (Bool-cases (is_open_for p e)) [
  | inl open_one ↦ rw open_one ((u.0, u.1), refl, omega arith, ground (arith, open_one))
  | inr other ↦
      let (unique, added, grown, there) = enqueue-IsUnique p t table u.1 in
      rw other (
        (clash-enqueue e p t table other u.0, unique),
        added,
        omega (arith, grown),
        ground (arith, other, there),
      )
]

-- Detecting the same thing again changes no number of entries: the second `enqueue` refreshes the
-- entry that the first one left.
enqueue-enqueue :
    (p q : ResearchPriority) (t u : ℕ) (table : List ResearchQueueEntry)
    → IsUnique table
    → q.asset_id ≡ p.asset_id
    → q.change_type ≡ p.change_type
    → ((enqueue q u (enqueue p t table).0).1 ≡ false)
      × (length (enqueue q u (enqueue p t table).0).0 ≡ length (enqueue p t table).0)
enqueue-enqueue p q t u table unique same_asset same_type =
    let (unique1, added1, grown1, there1) = enqueue-IsUnique p t table unique in
    let (unique2, added2, grown2, there2) = enqueue-IsUnique q u (enqueue p t table).0 unique1 in
    let there : has_open q (enqueue p t table).0 ≡ true =
      has_open-congruence (enqueue p t table).0 there1 in
    ground (arith, added2, grown2, there)
  where
    has_open-congruence :
        (rows : List ResearchQueueEntry) → has_open p rows ≡ true → has_open q rows ≡ true
    has_open-congruence rows h = rw (same_asset, same_type) h

place-All {κ} :
    (P : ResearchQueueEntry → Type κ) (e : ResearchQueueEntry) (queue : List ResearchQueueEntry)
    → P e
    → All P queue
    → All P (place e queue)
unfolding place
place-All P e [] h k = (h, tt)
place-All P e (f ∷ queue) h k =
    if_ind (All P) (is_before e f) (λ _. (h, k)) (λ _. (k.0, place-All P e queue h k.1))

abbrev pub Precedes : ResearchQueueEntry → ResearchQueueEntry → Type 0
Precedes a b = is_before a b ≡ true

-- Each entry of a queue precedes the later ones.
abbrev pub IsInOrder : List ResearchQueueEntry → Type 0
IsInOrder [] = Unit
IsInOrder (e ∷ queue) = All (Precedes e) queue × IsInOrder queue

is_before_trans : (a b c : ResearchQueueEntry) → Precedes a b → Precedes b c → Precedes a c
is_before_trans a b c h k = ground (arith, h, k)

is_before_total : (a b : ResearchQueueEntry) → is_before a b ≡ false → Precedes b a
is_before_total a b h = ground (arith, h)

place-IsInOrder :
    (e : ResearchQueueEntry) (queue : List ResearchQueueEntry)
    → IsInOrder queue
    → IsInOrder (place e queue)
unfolding place
place-IsInOrder e [] h = (tt, tt)
place-IsInOrder e (f ∷ queue) h =
    if_ind IsInOrder (is_before e f)
      (λ first. (
        (first, All-map (Precedes f) (Precedes e) queue (λ g k. is_before_trans e f g first k) h.0),
        h,
      ))
      (λ later. (
        place-All (Precedes f) e queue (is_before_total e f later) h.0,
        place-IsInOrder e queue h.1,
      ))

in_order-IsInOrder : (table : List ResearchQueueEntry) → IsInOrder (in_order table)
unfolding in_order
in_order-IsInOrder [] = tt
in_order-IsInOrder (e ∷ table) = place-IsInOrder e (in_order table) (in_order-IsInOrder table)

in_order-All {κ} :
    (P : ResearchQueueEntry → Type κ) (table : List ResearchQueueEntry)
    → All P table
    → All P (in_order table)
unfolding in_order
in_order-All P [] h = tt
in_order-All P (e ∷ table) h = place-All P e (in_order table) h.0 (in_order-All P table h.1)

kept_status :
    (s : Status) (table : List ResearchQueueEntry)
    → All
        (λ (e : ResearchQueueEntry). same_status e.status s ≡ true)
        (keep (λ (e : ResearchQueueEntry). same_status e.status s) table)
kept_status s [] = tt
kept_status s (e ∷ table) =
    if_ind (All (λ (e : ResearchQueueEntry). same_status e.status s ≡ true))
      (same_status e.status s) (λ h. (h, kept_status s table)) (λ _. kept_status s table)

-- The queue of a status lists entries of that status only, those with higher scores first and, of equal
-- scores, those that were detected first.
get_queue-IsInOrder :
    (s : Status) (table : List ResearchQueueEntry)
    → IsInOrder (get_queue s table)
      × All (λ (e : ResearchQueueEntry). same_status e.status s ≡ true) (get_queue s table)
unfolding get_queue
get_queue-IsInOrder s table = (
  in_order-IsInOrder (keep (λ (e : ResearchQueueEntry). same_status e.status s) table),
  in_order-All (λ (e : ResearchQueueEntry). same_status e.status s ≡ true)
      (keep (λ (e : ResearchQueueEntry). same_status e.status s) table) (kept_status s table),
)
