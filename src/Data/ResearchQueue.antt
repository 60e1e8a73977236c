-- ===== src/Data/ResearchQueue.antt =====
-- The research queue of data/storage/research_queue_repository.py. An entry is named by its place in
-- the table. Scores are whole numbers, which are only compared; texts and details are left out.
pub mod Unique
use trading_brain.Base.{
  ℕ, zero, suc, ◌+◌, ◌-◌, Bool, true, false, not, ◌&&◌, ◌||◌, Option, none, some, List, [], ◌∷◌,
  ◌++◌, ltb, leb, ◌==◌, if◌then◌else◌, keep, first, length,
}

pub data Status : Type 0 where
  pending in_progress done dismissed : Status

-- `status.in_(_OPEN_STATUSES)`
abbrev pub is_open : Status → Bool
is_open Status.pending = true
is_open Status.in_progress = true
is_open _ = false

abbrev pub same_status : Status → Status → Bool
same_status Status.pending Status.pending = true
same_status Status.in_progress Status.in_progress = true
same_status Status.done Status.done = true
same_status Status.dismissed Status.dismissed = true
same_status _ _ = false

-- `ResearchPriority`
pub record ResearchPriority : Type 0 where
  pub asset_id : ℕ
  pub change_type : ℕ
  pub score : ℕ
  pub importance : ℕ
  pub novelty : ℕ
  pub portfolio_impact : ℕ
  pub watchlist_relevance : ℕ

-- `ResearchQueueEntry`
pub record ResearchQueueEntry : Type 0 where
  pub priority : ResearchPriority
  pub status : Status
  pub detected_at : ℕ
  pub processed_at : Option ℕ
  pub research_document_id : Option ℕ

-- The condition of the query of `enqueue`.
abbrev pub is_open_for : ResearchPriority → ResearchQueueEntry → Bool
is_open_for p e =
    (e.priority.asset_id == p.asset_id)
    && (e.priority.change_type == p.change_type)
    && is_open e.status

abbrev refreshed : ResearchPriority → ℕ → ResearchQueueEntry → ResearchQueueEntry
refreshed p detected_at e = record e {
  priority = record p { asset_id = e.priority.asset_id; change_type = e.priority.change_type };
  detected_at = detected_at;
}

abbrev created : ResearchPriority → ℕ → ResearchQueueEntry
created p detected_at = record {
  priority = p;
  status = Status.pending;
  detected_at = detected_at;
  processed_at = none;
  research_document_id = none;
}

-- `enqueue`: refresh the first open entry for the asset and the kind of change, or add one.
unfoldable pub enqueue :
    ResearchPriority → ℕ → List ResearchQueueEntry → List ResearchQueueEntry × Bool
enqueue p detected_at [] = (created p detected_at ∷ [], true)
enqueue p detected_at (e ∷ table) =
    let rest = enqueue p detected_at table in
    if is_open_for p e then (refreshed p detected_at e ∷ table, false) else (e ∷ rest.0, rest.1)

-- Higher scores first, and of equal ones the one detected first.
abbrev pub is_before : ResearchQueueEntry → ResearchQueueEntry → Bool
is_before a b =
    ltb b.priority.score a.priority.score
    || (a.priority.score == b.priority.score) && leb a.detected_at b.detected_at

unfoldable pub place : ResearchQueueEntry → List ResearchQueueEntry → List ResearchQueueEntry
place e [] = e ∷ []
place e (f ∷ queue) = let rest = place e queue in if is_before e f then e ∷ f ∷ queue else f ∷ rest

-- `order_by(score.desc(), detected_at.asc())`
unfoldable pub in_order : List ResearchQueueEntry → List ResearchQueueEntry
unfolding place
in_order [] = []
in_order (e ∷ table) = place e (in_order table)

-- `get_queue`
unfoldable pub get_queue : Status → List ResearchQueueEntry → List ResearchQueueEntry
unfolding in_order
get_queue status table =
    in_order (keep (λ (e : ResearchQueueEntry). same_status e.status status) table)

-- `next_entry`
unfoldable pub next_entry : List ResearchQueueEntry → Option ResearchQueueEntry
unfolding get_queue
next_entry table = first (get_queue Status.pending table)

-- A change of the entry at a place.
unfoldable pub update :
    ℕ
    → (ResearchQueueEntry → ResearchQueueEntry)
    → List ResearchQueueEntry
    → List ResearchQueueEntry
update n f [] = []
update zero f (e ∷ table) = f e ∷ table
update (suc n) f (e ∷ table) = e ∷ update n f table

-- `mark_in_progress`, `mark_done` and `dismiss`
unfoldable pub mark_in_progress : ℕ → List ResearchQueueEntry → List ResearchQueueEntry
unfolding update
mark_in_progress n = update n (λ e. record e { status = Status.in_progress })

unfoldable pub mark_done : ℕ → Option ℕ → ℕ → List ResearchQueueEntry → List ResearchQueueEntry
unfolding update
mark_done n document now = update n (λ e. record e {
  status = Status.done;
  processed_at = some now;
  research_document_id = document;
})

unfoldable pub dismiss : ℕ → ℕ → List ResearchQueueEntry → List ResearchQueueEntry
unfolding update
dismiss n now = update n (λ e. record e { status = Status.dismissed; processed_at = some now })
