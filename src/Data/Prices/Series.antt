-- ===== src/Data/Prices/Series.antt =====
-- What is read of a table without duplicates.
use trading_brain.Base.{
  ℕ, zero, suc, ◌-◌, ◌≡◌, ◌≢◌, arith, Bool, true, false, ◌&&◌, Option, none, some, List, [], ◌∷◌,
  ◌==◌, keep, length, drop, last_rows, sort, All, if_ind, IsDistinct, IsIncreasing, sort-IsSorted,
  sort-IsDistinct, IsSorted-IsIncreasing,
}
use trading_brain.Quant.Floats.{Floats}
use trading_brain.Data.Prices.{Price, is_series, is_from, is_until, get_price_bars}
use trading_brain.Data.Prices.Upsert.{IsUnique, is_stored}

drop-IsIncreasing {ℓ} :
    {A : Type ℓ} (key : A → ℕ) (xs : List A) (n : ℕ)
    → IsIncreasing key xs
    → IsIncreasing key (drop xs n)
drop-IsIncreasing key [] n h = tt
drop-IsIncreasing key (x ∷ xs) zero h = h
drop-IsIncreasing key (x ∷ xs) (suc n) h = drop-IsIncreasing key xs n h.1

last_rows-IsIncreasing {ℓ} :
    {A : Type ℓ} (key : A → ℕ) (n : ℕ) (xs : List A)
    → IsIncreasing key xs
    → IsIncreasing key (last_rows n xs)
last_rows-IsIncreasing key n xs h =
    if_ind (IsIncreasing key) (n == 0) (λ _. h) (λ _. drop-IsIncreasing key xs (length xs - n) h)

module _ (num : Floats) where
  abbrev pub ts_of : Price num → ℕ
  ts_of r = r.bar.ts

  module _ (a i : ℕ) (start end_at : Option ℕ) where
    abbrev selects : Price num → Bool
    selects r = is_series num a i r && is_from start r.bar.ts && is_until end_at r.bar.ts

    -- A row of the series that is not stored has another time than those that are.
    keep-ne :
        (r : Price num) (table : List (Price num))
        → is_series num a i r ≡ true
        → is_stored num r.asset_id r.interval r.bar.ts table ≡ false
        → All (λ (q : Price num). ts_of r ≢ ts_of q) (keep selects table)
    keep-ne r [] inside absent = tt
    keep-ne r (q ∷ table) inside absent =
        if_ind (All (λ (q : Price num). ts_of r ≢ ts_of q)) (selects q)
          (λ chosen. (
            λ e. ground (arith, inside, absent, chosen, e),
            keep-ne r table inside (ground (arith, absent)),
          ))
          (λ _. keep-ne r table inside (ground (arith, absent)))

    keep-IsDistinct :
        (table : List (Price num)) → IsUnique num table → IsDistinct ts_of (keep selects table)
    keep-IsDistinct [] h = tt
    keep-IsDistinct (r ∷ table) h =
        if_ind (IsDistinct ts_of) (selects r)
          (λ chosen. (keep-ne r table (ground (arith, chosen)) h.0, keep-IsDistinct table h.1))
          (λ _. keep-IsDistinct table h.1)

  -- Of a table without duplicates, the bars that are read of one series are in strictly increasing order
  -- of time, whatever the range and the limit: no bar is read twice.
  get_price_bars-IsIncreasing :
      (a i : ℕ) (start end_at limit : Option ℕ) (table : List (Price num))
      → IsUnique num table
      → IsIncreasing ts_of (get_price_bars num a i start end_at limit table)
  unfolding get_price_bars
  get_price_bars-IsIncreasing a i start end_at none table h =
      let rows = keep (selects a i start end_at) table in
      IsSorted-IsIncreasing ts_of (sort ts_of rows) (sort-IsSorted ts_of rows)
        (sort-IsDistinct ts_of rows (keep-IsDistinct a i start end_at table h))
  get_price_bars-IsIncreasing a i start end_at (some n) table h =
      let rows = keep (selects a i start end_at) table in
      last_rows-IsIncreasing ts_of n (sort ts_of rows) (
        IsSorted-IsIncreasing ts_of (sort ts_of rows) (sort-IsSorted ts_of rows)
          (sort-IsDistinct ts_of rows (keep-IsDistinct a i start end_at table h)))
