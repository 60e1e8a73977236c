-- ===== src/Data/Tests.antt =====
-- The validation and the providers on concrete inputs.
use trading_brain.Base.{
  ℕ, ◌≤◌, ◌≡◌, refl, true, false, none, some, List, [], ◌∷◌, ℤ, All, length, if◌then◌else◌,
}
use trading_brain.Quant.Whole.{whole_numbers}
use trading_brain.Backtest.Schemas.{PriceBar}
use trading_brain.Data.Validation.{validate_price_bars, errors, rejected_count}
use trading_brain.Data.Validation.Sound.{IsSane, IsChronological, validate_price_bars_sound}
use trading_brain.Base.{◌*◌, ◌==◌, Result, ok, err}
use trading_brain.Data.Providers.{Provider, Fault, ProviderRegistry, execute}
use trading_brain.Data.Providers.Genuine.{IsServed, execute-IsServed}

abbrev bar : ℕ → ℤ → PriceBar whole_numbers
bar t price = record {
  ts = t;
  open_price = price;
  high = price;
  low = price;
  close = price;
  volume = ℤ.pos 10;
}

-- One bar out of order, one twice, one without a price.
abbrev bars : List (PriceBar whole_numbers)
bars = bar 20 (ℤ.pos 5) ∷ bar 10 (ℤ.pos 6) ∷ bar 20 (ℤ.pos 7) ∷ bar 30 (ℤ.negsuc 0) ∷ []

validate_price_bars_sound_example :
    let report = validate_price_bars whole_numbers bars 40 in
    All (IsSane whole_numbers 40) report.valid_bars
    × IsChronological whole_numbers 40 report.valid_bars
    × (rejected_count whole_numbers report ≡ length (errors whole_numbers report))
    × (length report.valid_bars ≤ 4)
validate_price_bars_sound_example = validate_price_bars_sound whole_numbers 40 bars

-- Provider 1 is the primary and fails; 2 is synthetic; 3 answers.
abbrev providers : ProviderRegistry
providers = record {
  registrations =
      (1, record { factory = ok 1; synthetic = false; instance_of = none })
      ∷ (2, record { factory = ok 2; synthetic = true; instance_of = none })
      ∷ (3, record { factory = ok 3; synthetic = false; instance_of = none })
      ∷ [];
  primary = some 1;
  fallbacks = 2 ∷ 3 ∷ [];
}

abbrev call : Provider → Result Fault ℕ
call p = if p == 1 then err Fault.provider_error else ok (p * 100)

execute-IsServed_example : IsServed call 1 providers (execute call providers)
execute-IsServed_example = execute-IsServed call 1 providers refl

abbrev real_fallbacks : ProviderRegistry
real_fallbacks = record providers { fallbacks = 3 ∷ 1 ∷ [] }
