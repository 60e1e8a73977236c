-- ===== src/Data/PriceTests.antt =====
-- Stored prices on concrete inputs, in whole numbers.
use trading_brain.Base.{ℕ, ◌≡◌, refl, List, [], ◌∷◌, ℤ}
use trading_brain.Quant.Whole.{whole_numbers}
use trading_brain.Data.Prices.{SourcedBar, upsert_price_bars}
use trading_brain.Data.Prices.Upsert.{
  stored_all, upsert_price_bars-stored_all, upsert_price_bars_idempotent,
}

abbrev bar : ℕ → SourcedBar whole_numbers
bar t = record {
  interval = 0;
  source = 4;
  bar = record {
    ts = t;
    open_price = ℤ.pos 5;
    high = ℤ.pos 6;
    low = ℤ.pos 4;
    close = ℤ.pos 5;
    volume = ℤ.pos 10;
  };
}

-- The batch brings a bar twice.
abbrev batch : List (SourcedBar whole_numbers)
batch = bar 30 ∷ bar 10 ∷ bar 30 ∷ []

two_are_new : (upsert_price_bars whole_numbers 7 batch []).1 ≡ record { inserted = 2; skipped = 1 }
unfolding upsert_price_bars
two_are_new = refl

upsert_price_bars-stored_all_example :
    (upsert_price_bars whole_numbers 7 batch []).0 ≡ stored_all whole_numbers 7 batch []
upsert_price_bars-stored_all_example = upsert_price_bars-stored_all whole_numbers 7 batch []

upsert_price_bars_idempotent_example :
    upsert_price_bars whole_numbers 7 batch (upsert_price_bars whole_numbers 7 batch []).0
    ≡ ((upsert_price_bars whole_numbers 7 batch []).0, record { inserted = 0; skipped = 3 })
upsert_price_bars_idempotent_example = upsert_price_bars_idempotent whole_numbers 7 batch []
