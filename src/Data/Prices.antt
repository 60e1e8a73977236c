-- ===== src/Data/Prices.antt =====
-- The stored price bars of data/storage/price_repository.py. A timestamp stands for its normal form in
-- UTC, by which the code compares; an interval and a source are numbers.
pub mod Upsert
pub mod Series
use trading_brain.Base.{
  latest_of, ℕ, zero, suc, ◌+◌, ◌-◌, Bool, true, false, ◌&&◌, ◌||◌, Option, none, some, List, [],
  ◌∷◌, ◌++◌, map, leb, ◌==◌, if◌then◌else◌, keep, any, last_rows, sort,
}
use trading_brain.Quant.Floats.{Floats}
use trading_brain.Backtest.Schemas.{PriceBar}

-- `PriceBar`, with the interval and the source that the backtest does not read.
pub record SourcedBar (num : Floats) : Type 0 where
  pub interval : ℕ
  pub source : ℕ
  pub bar : PriceBar num

-- `Price`
pub record Price (num : Floats) : Type 0 where
  pub asset_id : ℕ
  pub interval : ℕ
  pub source : ℕ
  pub bar : PriceBar num

pub record UpsertResult : Type 0 where
  pub inserted : ℕ
  pub skipped : ℕ

abbrev pub Key : Type 0
Key = ℕ × ℕ

-- `key in keys`
abbrev pub has_key : ℕ → ℕ → List Key → Bool
has_key i t keys = any (λ (k : Key). i == k.0 && t == k.1) keys

abbrev pub is_from : Option ℕ → ℕ → Bool
is_from none t = true
is_from (some start) t = leb start t

abbrev pub is_until : Option ℕ → ℕ → Bool
is_until none t = true
is_until (some end_at) t = leb t end_at

module _ (num : Floats) where
  -- `price_bar_to_model`
  abbrev pub price_bar_to_model : ℕ → SourcedBar num → Price num
  price_bar_to_model asset_id b = record {
    asset_id = asset_id;
    interval = b.interval;
    source = b.source;
    bar = b.bar;
  }

  abbrev pub is_series : ℕ → ℕ → Price num → Bool
  is_series asset_id interval r = r.asset_id == asset_id && r.interval == interval

  -- The keys that are stored, of each interval.
  unfoldable pub existing_of : ℕ → List ℕ → List (Price num) → List Key
  existing_of asset_id [] table = []
  existing_of asset_id (interval ∷ intervals) table =
      map (λ (r : Price num). (interval, r.bar.ts)) (keep (is_series asset_id interval) table)
      ++ existing_of asset_id intervals table

  -- The loop of `upsert_price_bars`.
  unfoldable pub upsert_from :
      ℕ
      → List Key
      → List Key
      → List (SourcedBar num)
      → List (Price num)
      → List (Price num) × UpsertResult
  upsert_from asset_id existing seen [] table = (table, record { inserted = 0; skipped = 0 })
  upsert_from asset_id existing seen (b ∷ bars) table =
      let skipping = upsert_from asset_id existing seen bars table in
      let inserting =
        upsert_from asset_id existing ((b.interval, b.bar.ts) ∷ seen) bars
          (table ++ price_bar_to_model asset_id b ∷ []) in
      if has_key b.interval b.bar.ts existing || has_key b.interval b.bar.ts seen
      then (skipping.0, record skipping.1 { skipped = skipping.1.skipped + 1 })
      else (inserting.0, record inserting.1 { inserted = inserting.1.inserted + 1 })

  -- `upsert_price_bars`
  unfoldable pub upsert_price_bars :
      ℕ → List (SourcedBar num) → List (Price num) → List (Price num) × UpsertResult
  unfolding existing_of upsert_from
  upsert_price_bars asset_id bars table =
      upsert_from asset_id
        (existing_of asset_id (map (λ (b : SourcedBar num). b.interval) bars) table) [] bars table

  -- `get_latest_bar_ts`
  unfoldable pub get_latest_bar_ts : ℕ → ℕ → List (Price num) → Option ℕ
  get_latest_bar_ts asset_id interval table =
      latest_of (map (λ (r : Price num). r.bar.ts) (keep (is_series asset_id interval) table))

  -- `get_price_bars`
  unfoldable pub get_price_bars :
      ℕ → ℕ → Option ℕ → Option ℕ → Option ℕ → List (Price num) → List (Price num)
  get_price_bars asset_id interval start end_at limit table =
      let rows =
        sort (λ (r : Price num). r.bar.ts)
          (keep
            (λ (r : Price num).
              is_series asset_id interval r && is_from start r.bar.ts && is_until end_at r.bar.ts)
            table) in
      elim limit [ none ↦ rows | some n ↦ last_rows n rows ]

  -- `get_close_series`
  unfoldable pub get_close_series : ℕ → ℕ → Option ℕ → List (Price num) → List num.F
  unfolding get_price_bars
  get_close_series asset_id interval limit table =
      map (λ (r : Price num). r.bar.close) (get_price_bars asset_id interval none none limit table)
