-- ===== src/Health/Status.antt =====
-- `Status`, `Check` and `aggregate` of observability/checks.py. Names are those of the checks; details and
-- data are for the reader.
use trading_brain.Base.{
  ℕ, ◌≡◌, refl, arith, Bool, true, false, List, [], ◌∷◌, ◌++◌, ltb, if◌then◌else◌, any, any-append,
}

pub data Status : Type 0 where
  healthy degraded unavailable : Status

pub data CheckName : Type 0 where
  database obsidian claude market_data api_auth price_freshness stale_theses : CheckName
  research_queue watchlists portfolio_consistency scheduler job_failures : CheckName

pub record Check : Type 0 where
  pub name : CheckName
  pub status : Status

abbrev pub check_of : CheckName → Status → Check
check_of name status = record { name = name; status = status }

-- `_SEVERITY`
abbrev pub severity : Status → ℕ
severity Status.healthy = 0
severity Status.degraded = 1
severity Status.unavailable = 2

-- `max(checks, key=...)`: the first of the most severe, starting from one.
unfoldable pub most_severe : Check → List Check → Check
most_severe c [] = c
most_severe c (d ∷ checks) =
    most_severe (if ltb (severity c.status) (severity d.status) then d else c) checks

unfoldable pub aggregate : List Check → Status
unfolding most_severe
aggregate [] = Status.healthy
aggregate (c ∷ checks) = (most_severe c checks).status

abbrev pub is_unavailable : Check → Bool
is_unavailable c = elim c.status [ Status.unavailable ↦ true | _ ↦ false ]

abbrev pub is_degraded : Check → Bool
is_degraded c = elim c.status [ Status.degraded ↦ true | _ ↦ false ]

-- The worse of two.
abbrev pub worse : Status → Status → Status
worse s t = if ltb (severity s) (severity t) then t else s

-- What the checks say of the whole: unavailable if one of them is, or else degraded if one of them is.
abbrev pub worst_of : List Check → Status
worst_of checks =
    if any is_unavailable checks
    then Status.unavailable
    else if any is_degraded checks
    then Status.degraded
    else Status.healthy

most_severe_lem :
    (c : Check) (checks : List Check) → (most_severe c checks).status ≡ worst_of (c ∷ checks)
unfolding most_severe
most_severe_lem c [] = ground arith
most_severe_lem c (d ∷ checks) =
    ground
      (arith, most_severe_lem (if ltb (severity c.status) (severity d.status) then d else c) checks)

-- The aggregate of any checks is unavailable if one of them is, degraded if none is and one is degraded,
-- and healthy if all of them are.
pub aggregate_lem : (checks : List Check) → aggregate checks ≡ worst_of checks
unfolding aggregate
aggregate_lem [] = refl
aggregate_lem (c ∷ checks) = most_severe_lem c checks

pub aggregate-append :
    (xs ys : List Check) → aggregate (xs ++ ys) ≡ worse (aggregate xs) (aggregate ys)
aggregate-append xs ys = ground (
  arith,
  aggregate_lem xs,
  aggregate_lem ys,
  aggregate_lem (xs ++ ys),
  any-append is_unavailable xs ys,
  any-append is_degraded xs ys,
)
