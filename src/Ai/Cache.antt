-- ===== src/Ai/Cache.antt =====
-- `ResponseCache` of ai/governance.py: answers by fingerprint, and the fingerprints in flight.
pub mod Laws
use trading_brain.Base.{
  ℕ, ◌+◌, ◌*◌, Bool, true, false, not, Option, none, some, List, [], ◌∷◌, ltb, leb, ◌==◌,
  if◌then◌else◌, length, keep, any, Dict, lookup, insert, erase,
}
use trading_brain.Ai.Kinds.{AiTaskType}
use trading_brain.Ai.Schemas.{AiResponse}

pub record CacheEntry : Type 0 where
  pub response : AiResponse
  pub expires_at : ℕ

-- `default_ttl` is in seconds, as are the lifetimes below.
pub record ResponseCache : Type 0 where
  pub default_ttl : ℕ
  pub entries : Dict CacheEntry
  pub in_flight : List ℕ

abbrev pub is_in_flight : ℕ → ResponseCache → Bool
is_in_flight fingerprint c = any (λ f. fingerprint == f) c.in_flight

-- `ResponseCache.get`: an entry that has expired is deleted.
unfoldable pub get : ℕ → ℕ → ResponseCache → ResponseCache × Option AiResponse
get fingerprint now c = elim (lookup fingerprint c.entries) [
  | none ↦ (c, none)
  | some entry ↦
      if leb entry.expires_at now
      then (record c { entries = erase fingerprint c.entries }, none)
      else (c, some entry.response)
]

abbrev pub ttl_or_default : Option ℕ → ResponseCache → ℕ
ttl_or_default ttl c = elim ttl [ none ↦ c.default_ttl | some t ↦ t ]

-- `ResponseCache.put`
unfoldable pub put : ℕ → AiResponse → Option ℕ → ℕ → ResponseCache → ResponseCache
put fingerprint response ttl now c =
    if not response.success then c else if leb (ttl_or_default ttl c) 0 then c else record c {
      entries =
          insert fingerprint
            (record { response = response; expires_at = now + ttl_or_default ttl c * 1000000 })
            c.entries;
    }

-- `ResponseCache.begin`
unfoldable pub begin : ℕ → ResponseCache → ResponseCache × Bool
begin fingerprint c =
    if is_in_flight fingerprint c
    then (c, false)
    else (record c { in_flight = fingerprint ∷ c.in_flight }, true)

-- `ResponseCache.end`
unfoldable pub end : ℕ → ResponseCache → ResponseCache
end fingerprint c = record c { in_flight = keep (λ f. not (fingerprint == f)) c.in_flight }

pub record CacheStats : Type 0 where
  pub entries : ℕ
  pub in_flight : ℕ

-- `ResponseCache.stats`
unfoldable pub stats : ℕ → ResponseCache → CacheStats
stats now c = record {
  entries = length (keep (λ (e : ℕ × CacheEntry). ltb now e.1.expires_at) c.entries);
  in_flight = length c.in_flight;
}

-- `ResponseCache.clear`
unfoldable pub clear : ResponseCache → ResponseCache
clear c = record c { entries = []; in_flight = [] }

-- `TASK_CACHE_TTL.get(task)`
unfoldable pub task_cache_ttl : AiTaskType → Option ℕ
task_cache_ttl AiTaskType.journal_review = some 3600
task_cache_ttl AiTaskType.summarization = some 3600
task_cache_ttl AiTaskType.classification = some 3600
task_cache_ttl AiTaskType.entity_extraction = some 3600
task_cache_ttl AiTaskType.research_synthesis = some 600
task_cache_ttl AiTaskType.thesis_review = some 300
