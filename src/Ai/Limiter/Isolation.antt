-- ===== src/Ai/Limiter/Isolation.antt =====
-- No caller uses up another's allowance, and what a refusal's advice is worth.
use trading_brain.Base.{
  ℕ, ◌+◌, ◌-◌, ◌≤◌, ◌<◌, ◌≡◌, ◌≢◌, refl, Bool, false, ◌&&◌, some, List, [], ◌∷◌, ◌++◌, arith, leb,
  length, lookup, if_ind,
}
use trading_brain.Ai.Limiter.{
  RateLimiter, RateVerdict, hour, hits_of, pop_before, judge, check, record_hit,
}
use trading_brain.Ai.Limiter.Bounds.{attempt, hits_of-insert, limits-check}

limits-attempt :
    (key now : ℕ) (goes_on : Bool) (l : RateLimiter)
    → ((attempt key now goes_on l).per_minute ≡ l.per_minute)
      × ((attempt key now goes_on l).per_hour ≡ l.per_hour)
unfolding record_hit
limits-attempt key now goes_on l = ground (arith, limits-check key now l)

hits_of-check_other :
    (key j now : ℕ) (l : RateLimiter) → key ≢ j → hits_of j (check key now l).0 ≡ hits_of j l
unfolding check
hits_of-check_other key j now l ne =
    if_ind (λ (r : RateLimiter × RateVerdict). hits_of j r.0 ≡ hits_of j l)
      (leb l.per_minute 0 && leb l.per_hour 0) (λ _. refl)
      (λ _. ground (arith, hits_of-insert key j (pop_before (now - hour) (hits_of key l)) l))

hits_of-attempt :
    (key j now : ℕ) (goes_on : Bool) (l : RateLimiter)
    → key ≢ j
    → hits_of j (attempt key now goes_on l) ≡ hits_of j l
unfolding record_hit
hits_of-attempt key j now goes_on l ne =
    if_ind (λ m. hits_of j m ≡ hits_of j l) ((check key now l).1.allowed && goes_on)
      (λ _. ground (
        arith,
        hits_of-check_other key j now l ne,
        hits_of-insert key j (hits_of key (check key now l).0 ++ now ∷ []) (check key now l).0,
      ))
      (λ _. hits_of-check_other key j now l ne)

check-congruence :
    (j now : ℕ) (l m : RateLimiter)
    → l.per_minute ≡ m.per_minute
    → l.per_hour ≡ m.per_hour
    → hits_of j l ≡ hits_of j m
    → (check j now l).1 ≡ (check j now m).1
unfolding check judge
check-congruence j now l m p q r = rw (p, q, r) (ground arith)

-- One caller cannot use up another's allowance: whatever a caller does, the verdict on any other
-- caller at any later time is the one that it would have had.
check-attempt_other :
    (key j now later : ℕ) (goes_on : Bool) (l : RateLimiter)
    → key ≢ j
    → (check j later (attempt key now goes_on l)).1 ≡ (check j later l).1
check-attempt_other key j now later goes_on l ne =
    let (same_minute, same_hour) = limits-attempt key now goes_on l in
    check-congruence j later (attempt key now goes_on l) l same_minute same_hour
      (hits_of-attempt key j now goes_on l ne)

-- The hourly refusal advises to wait until an hour after the oldest hit that counts. A caller who
-- asks exactly then, with nothing recorded in between, is refused again: the oldest hit is dropped
-- only when it is more than an hour old.
check-at_the_hint :
    (key oldest : ℕ) (younger : List ℕ) (l : RateLimiter)
    → lookup key l.hits ≡ some (oldest ∷ younger)
    → 0 < l.per_hour
    → l.per_hour ≤ length (oldest ∷ younger)
    → (check key (oldest + hour) l).1.allowed ≡ false
unfolding check judge pop_before
check-at_the_hint key oldest younger l found pos full = ground (arith, found)
