-- ===== src/Ai/Limiter.antt =====
-- `RateLimiter` of ai/governance.py: a sliding window for each caller. A limit of 0 is no limit.
pub mod Bounds
pub mod Isolation
use trading_brain.Base.{
  ℕ, ◌+◌, ◌-◌, Bool, true, false, ◌&&◌, Option, none, some, List, [], ◌∷◌, ◌++◌, ltb, leb, ◌==◌,
  if◌then◌else◌, length, keep, first, Dict, lookup, insert, round_div,
}

abbrev pub minute : ℕ
minute = 60000000

abbrev pub hour : ℕ
hour = 3600000000

-- `retry_after` is in hundredths of a second.
pub record RateVerdict : Type 0 where
  pub allowed : Bool
  pub retry_after : Option ℕ

pub record RateLimiter : Type 0 where
  pub per_minute : ℕ
  pub per_hour : ℕ
  pub hits : Dict (List ℕ)

-- `self._hits.get(key)`, where an absent key has no hits.
abbrev pub hits_of : ℕ → RateLimiter → List ℕ
hits_of key l = elim (lookup key l.hits) [ none ↦ [] | some h ↦ h ]

-- `while hits and hits[0] < cutoff: hits.popleft()`
unfoldable pub pop_before : ℕ → List ℕ → List ℕ
pop_before cutoff [] = []
pop_before cutoff (h ∷ hits) = if ltb h cutoff then pop_before cutoff hits else h ∷ hits

abbrev pub recent : ℕ → List ℕ → List ℕ
recent cutoff = keep (λ h. leb cutoff h)

-- `_seconds_until`, to a hundredth of a second: what lies behind `now` counts 0.
unfoldable pub seconds_until : ℕ → ℕ → ℕ
seconds_until when now = round_div (when - now) 10000

abbrev pub retry_from : ℕ → ℕ → List ℕ → Option ℕ
retry_from window now hits = elim (first hits) [
  | none ↦ none
  | some h ↦ some (seconds_until (h + window) now)
]

-- The verdict on the hits that are left of the last hour.
unfoldable pub judge : RateLimiter → ℕ → List ℕ → RateVerdict
judge l now hits =
    let young = recent (now - minute) hits in
    if ltb 0 l.per_hour && leb l.per_hour (length hits)
    then record { allowed = false; retry_after = retry_from hour now hits }
    else if ltb 0 l.per_minute && leb l.per_minute (length young)
    then record { allowed = false; retry_after = retry_from minute now young }
    else record { allowed = true; retry_after = none }

-- `RateLimiter.check`
unfoldable pub check : ℕ → ℕ → RateLimiter → RateLimiter × RateVerdict
unfolding judge
check key now l =
    if leb l.per_minute 0 && leb l.per_hour 0
    then (l, record { allowed = true; retry_after = none })
    else (let hits = pop_before (now - hour) (hits_of key l) in
        (record l { hits = insert key hits l.hits }, judge l now hits))

-- `RateLimiter.record`
unfoldable pub record_hit : ℕ → ℕ → RateLimiter → RateLimiter
record_hit key now l = record l { hits = insert key (hits_of key l ++ now ∷ []) l.hits }

-- `RateLimiter.reset`
unfoldable pub reset : RateLimiter → RateLimiter
reset l = record l { hits = [] }
