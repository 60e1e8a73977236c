-- ===== src/Ai/Cache/Laws.antt =====
-- What the cache serves, and that a fingerprint is claimed once.
use trading_brain.Base.{
  ℕ, ◌+◌, ◌*◌, ◌≡◌, refl, true, false, ◌&&◌, not, Option, none, some, List, [], ◌∷◌, arith, ltb,
  leb, ◌==◌, if◌then◌else◌, keep, any, All, Dict, lookup, insert, erase, lookup-insert, eq_refl,
  if_ind, Option-cases, inl, inr,
}
use trading_brain.Ai.Schemas.{AiResponse}
use trading_brain.Ai.Cache.{
  CacheEntry, ResponseCache, is_in_flight, get, ttl_or_default, put, begin, end,
}

-- After a `put` a `get` serves the new answer for its own fingerprint, if it was a success and its
-- lifetime is positive, until the lifetime has passed; in every other case it serves what it served
-- before.
pub get-put :
    (fingerprint other : ℕ) (r : AiResponse) (ttl : Option ℕ) (now later : ℕ) (c : ResponseCache)
    → (get other later (put fingerprint r ttl now c)).1 ≡ (
        if r.success && ltb 0 (ttl_or_default ttl c) && (other == fingerprint)
        then (if leb (now + ttl_or_default ttl c * 1000000) later then none else some r)
        else (get other later c).1)
unfolding get put
get-put fingerprint other r ttl now later c = ground (
  arith,
  lookup-insert fingerprint other
      (record { response = r; expires_at = now + ttl_or_default ttl c * 1000000 }) c.entries,
)

-- Only successes are stored.
abbrev pub IsHonest : ResponseCache → Type 0
IsHonest c = All (λ (e : ℕ × CacheEntry). e.1.response.success ≡ true) c.entries

insert-IsHonest :
    (k : ℕ) (v : CacheEntry) (d : Dict CacheEntry)
    → v.response.success ≡ true
    → All (λ (e : ℕ × CacheEntry). e.1.response.success ≡ true) d
    → All (λ (e : ℕ × CacheEntry). e.1.response.success ≡ true) (insert k v d)
insert-IsHonest k v [] s h = (s, tt)
insert-IsHonest k v ((j, w) ∷ d) s h = ground (arith, insert-IsHonest k v d s h.1)

erase-IsHonest :
    (k : ℕ) (d : Dict CacheEntry)
    → All (λ (e : ℕ × CacheEntry). e.1.response.success ≡ true) d
    → All (λ (e : ℕ × CacheEntry). e.1.response.success ≡ true) (erase k d)
erase-IsHonest k [] h = tt
erase-IsHonest k ((j, w) ∷ d) h = ground (arith, erase-IsHonest k d h.1)

pub put-IsHonest :
    (fingerprint : ℕ) (r : AiResponse) (ttl : Option ℕ) (now : ℕ) (c : ResponseCache)
    → IsHonest c
    → IsHonest (put fingerprint r ttl now c)
unfolding put
put-IsHonest fingerprint r ttl now c h =
    if_ind IsHonest (not r.success) (λ _. h)
      λ s.
        if_ind IsHonest (leb (ttl_or_default ttl c) 0) (λ _. h)
          (λ _. insert-IsHonest fingerprint _ c.entries (ground arith) h)

pub get-IsHonest :
    (fingerprint now : ℕ) (c : ResponseCache) → IsHonest c → IsHonest (get fingerprint now c).0
unfolding get
get-IsHonest fingerprint now c h = elim (Option-cases (lookup fingerprint c.entries)) [
  | inl absent ↦ rw (absent, get) h
  | inr (e, found) ↦
      rw (found, get)
        (if_ind (λ (r : ResponseCache × Option AiResponse). IsHonest r.0) (leb e.expires_at now)
          (λ _. erase-IsHonest fingerprint c.entries h) (λ _. h))
]

keep_absent :
    (f : ℕ) (fs : List ℕ) → any (λ g. f == g) fs ≡ false → keep (λ g. not (f == g)) fs ≡ fs
keep_absent f [] h = refl
keep_absent f (g ∷ fs) h = ground (arith, keep_absent f fs)

absent_after_keep : (f : ℕ) (fs : List ℕ) → any (λ g. f == g) (keep (λ g. not (f == g)) fs) ≡ false
absent_after_keep f [] = refl
absent_after_keep f (g ∷ fs) = ground (arith, absent_after_keep f fs)

-- A claim succeeds exactly if the fingerprint is not in flight. While it is held every further claim
-- fails, and releasing it puts the claims back as they were.
pub begin-end :
    (f : ℕ) (c : ResponseCache)
    → ((begin f c).1 ≡ not (is_in_flight f c))
      × ((begin f (begin f c).0).1 ≡ false)
      × (is_in_flight f (end f c) ≡ false)
      × ((begin f c).1 ≡ true → end f (begin f c).0 ≡ c)
unfolding begin end
begin-end f c = (
  ground arith,
  ground (arith, eq_refl f),
  absent_after_keep f c.in_flight,
  λ claimed. ground (arith, eq_refl f, keep_absent f c.in_flight),
)
