-- ===== src/Ai/Limiter/Bounds.antt =====
-- No caller passes its limits, and no caller uses up another's.
use trading_brain.Base.{
  ℕ, ◌+◌, ◌-◌, ◌≤◌, ◌<◌, ◌≡◌, refl, Bool, true, false, ◌&&◌, List, [], ◌∷◌, ◌++◌, arith, leb, ◌==◌,
  if◌then◌else◌, length, insert, lookup-insert, Bool-cases, inl, inr, if_ind,
}
use trading_brain.Ai.Limiter.{
  RateLimiter, RateVerdict, minute, hour, hits_of, pop_before, recent, judge, check, record_hit,
}

-- What the gateway does for one request: ask, and record the request if it is allowed and gets as
-- far as a provider.
abbrev pub attempt : ℕ → ℕ → Bool → RateLimiter → RateLimiter
attempt key now goes_on l =
    let (l', v) = check key now l in if v.allowed && goes_on then record_hit key now l' else l'

abbrev Within : ℕ → ℕ → List ℕ → Type 0
Within limit cutoff hits = 0 < limit → length (recent cutoff hits) ≤ limit

-- Within the last minute and the last hour no caller has more hits than its limits allow.
pub record IsWithinLimits (now : ℕ) (l : RateLimiter) : Type 0 where
  pub minutely : (key : ℕ) → Within l.per_minute (now - minute) (hits_of key l)
  pub hourly : (key : ℕ) → Within l.per_hour (now - hour) (hits_of key l)

recent-pop_before :
    (c cutoff : ℕ) (hits : List ℕ) → cutoff ≤ c → recent c (pop_before cutoff hits) ≡ recent c hits
unfolding pop_before
recent-pop_before c cutoff [] h = refl
recent-pop_before c cutoff (t ∷ hits) h = ground (arith, recent-pop_before c cutoff hits h)

recent_le : (c c' : ℕ) (hits : List ℕ) → c ≤ c' → length (recent c' hits) ≤ length (recent c hits)
recent_le c c' [] h = omega arith
recent_le c c' (t ∷ hits) h = ground (arith, recent_le c c' hits h)

length-recent : (c : ℕ) (hits : List ℕ) → length (recent c hits) ≤ length hits
length-recent c [] = omega arith
length-recent c (t ∷ hits) = ground (arith, length-recent c hits)

recent-append :
    (c now : ℕ) (hits : List ℕ) → length (recent c (hits ++ now ∷ [])) ≤ length (recent c hits) + 1
recent-append c now [] = ground arith
recent-append c now (t ∷ hits) = ground (arith, recent-append c now hits)

pub hits_of-insert :
    (key j : ℕ) (hits : List ℕ) (l : RateLimiter)
    → hits_of j (record l { hits = insert key hits l.hits })
      ≡ (if j == key then hits else hits_of j l)
hits_of-insert key j hits l = ground (arith, lookup-insert key j hits l.hits)

IsWithinLimits-later :
    (t now : ℕ) (l : RateLimiter) → t ≤ now → IsWithinLimits t l → IsWithinLimits now l
IsWithinLimits-later t now l le h = record {
  minutely = λ key pos. omega (
    arith,
    h.minutely key pos,
    recent_le (t - minute) (now - minute) (hits_of key l) (omega arith),
  );
  hourly = λ key pos.
      omega
        (arith, h.hourly key pos, recent_le (t - hour) (now - hour) (hits_of key l) (omega arith));
}

-- A call of `check` drops only hits that are older than an hour.
check-IsWithinLimits :
    (key now : ℕ) (l : RateLimiter) → IsWithinLimits now l → IsWithinLimits now (check key now l).0
unfolding check
check-IsWithinLimits key now l h =
    if_ind (λ (r : RateLimiter × RateVerdict). IsWithinLimits now r.0)
      (leb l.per_minute 0 && leb l.per_hour 0) (λ _. h)
      λ _. record {
        minutely = λ j. rw (hits_of-insert key j (pop_before (now - hour) (hits_of key l)) l) (
            if_ind (Within l.per_minute (now - minute)) (j == key)
              (λ _ pos.
                rw (recent-pop_before (now - minute) (now - hour) (hits_of key l) (omega arith))
                  (h.minutely key pos))
              (λ _. h.minutely j));
        hourly = λ j. rw (hits_of-insert key j (pop_before (now - hour) (hits_of key l)) l) (
            if_ind (Within l.per_hour (now - hour)) (j == key)
              (λ _ pos.
                rw (recent-pop_before (now - hour) (now - hour) (hits_of key l) (omega arith))
                  (h.hourly key pos))
              (λ _. h.hourly j));
      }

judge-room :
    (l : RateLimiter) (now : ℕ) (hits : List ℕ)
    → (judge l now hits).allowed ≡ true
    → (0 < l.per_minute → length (recent (now - minute) hits) < l.per_minute)
      × (0 < l.per_hour → length hits < l.per_hour)
unfolding judge
judge-room l now hits permitted = (λ pos. ground arith, λ pos. ground arith)

-- With a limit set, the caller's hits in the returned limiter are those of the last hour.
hits_of-check :
    (key now : ℕ) (l : RateLimiter)
    → (leb l.per_minute 0 && leb l.per_hour 0) ≡ false
    → (hits_of key (check key now l).0 ≡ pop_before (now - hour) (hits_of key l))
      × ((check key now l).1 ≡ judge l now (pop_before (now - hour) (hits_of key l)))
unfolding check
hits_of-check key now l limited =
    rw limited
      (ground (arith, hits_of-insert key key (pop_before (now - hour) (hits_of key l)) l), refl)

pub limits-check :
    (key now : ℕ) (l : RateLimiter)
    → ((check key now l).0.per_minute ≡ l.per_minute) × ((check key now l).0.per_hour ≡ l.per_hour)
unfolding check
limits-check key now l = ground arith

-- What an allowed check leaves room for, in the limiter that it returns.
check-room :
    (key now : ℕ) (l : RateLimiter)
    → (check key now l).1.allowed ≡ true
    → let hits = hits_of key (check key now l).0 in
      (0 < l.per_minute → length (recent (now - minute) hits) < l.per_minute)
      × (0 < l.per_hour → length (recent (now - hour) hits) < l.per_hour)
check-room key now l permitted = elim (Bool-cases (leb l.per_minute 0 && leb l.per_hour 0)) [
  | inl unlimited ↦ (λ pos. absurd (ground arith), λ pos. absurd (ground arith))
  | inr limited ↦
      let (same_hits, same_verdict) = hits_of-check key now l limited in
      let hits : List ℕ = pop_before (now - hour) (hits_of key l) in
      let room = judge-room l now hits (rw same_verdict at permitted) in
      rw same_hits (room.0, λ pos. omega (arith, room.1 pos, length-recent (now - hour) hits))
]

record_hit-IsWithinLimits :
    (key now : ℕ) (l : RateLimiter)
    → IsWithinLimits now l
    → (0 < l.per_minute → length (recent (now - minute) (hits_of key l)) < l.per_minute)
      × (0 < l.per_hour → length (recent (now - hour) (hits_of key l)) < l.per_hour)
    → IsWithinLimits now (record_hit key now l)
unfolding record_hit
record_hit-IsWithinLimits key now l h room = record {
  minutely = λ j. rw (hits_of-insert key j (hits_of key l ++ now ∷ []) l) (
      if_ind (Within l.per_minute (now - minute)) (j == key)
        (λ _ pos. omega (arith, room.0 pos, recent-append (now - minute) now (hits_of key l)))
        (λ _. h.minutely j));
  hourly = λ j. rw (hits_of-insert key j (hits_of key l ++ now ∷ []) l) (
      if_ind (Within l.per_hour (now - hour)) (j == key)
        (λ _ pos. omega (arith, room.1 pos, recent-append (now - hour) now (hits_of key l)))
        (λ _. h.hourly j));
}

attempt-IsWithinLimits :
    (key t now : ℕ) (goes_on : Bool) (l : RateLimiter)
    → t ≤ now
    → IsWithinLimits t l
    → IsWithinLimits now (attempt key now goes_on l)
attempt-IsWithinLimits key t now goes_on l le h =
    let checked = check-IsWithinLimits key now l (IsWithinLimits-later t now l le h) in
    let (same_minute, same_hour) = limits-check key now l in
    if_ind (IsWithinLimits now) ((check key now l).1.allowed && goes_on)
      (λ go.
        let room = check-room key now l (ground arith) in
        record_hit-IsWithinLimits key now (check key now l).0 checked
          (rw (same_minute, same_hour) room))
      (λ _. checked)

-- The requests of a run: caller, time, and whether the request gets as far as a provider.
abbrev pub run : List (ℕ × ℕ × Bool) → RateLimiter → RateLimiter
run [] l = l
run ((key, now, goes_on) ∷ rest) l = run rest (attempt key now goes_on l)

-- The time of the last request, and the requests in the order of their times from `t` on.
abbrev pub last_time : ℕ → List (ℕ × ℕ × Bool) → ℕ
last_time t [] = t
last_time t ((key, now, goes_on) ∷ rest) = last_time now rest

abbrev pub IsInOrder : ℕ → List (ℕ × ℕ × Bool) → Type 0
IsInOrder t [] = Unit
IsInOrder t ((key, now, goes_on) ∷ rest) = (t ≤ now) × IsInOrder now rest

-- After any run of requests in the order of their times, whatever the callers, every caller has at
-- most `per_minute` recorded hits in the last minute and at most `per_hour` in the last hour, for
-- each limit that is set, if this held before the run.
pub run-IsWithinLimits :
    (t : ℕ) (requests : List (ℕ × ℕ × Bool)) (l : RateLimiter)
    → IsInOrder t requests
    → IsWithinLimits t l
    → IsWithinLimits (last_time t requests) (run requests l)
run-IsWithinLimits t [] l ordered h = h
run-IsWithinLimits t ((key, now, goes_on) ∷ rest) l ordered h =
    run-IsWithinLimits now rest (attempt key now goes_on l) ordered.1
      (attempt-IsWithinLimits key t now goes_on l ordered.0 h)
