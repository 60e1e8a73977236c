-- ===== src/Paper/JournalTests.antt =====
-- The journal on concrete inputs, in whole numbers: a purchase, another, a partial sale and one of the rest.
use trading_brain.Base.{
  ℕ, ◌≡◌, refl, false, Option, none, some, List, [], ◌∷◌, ℤ, if◌then◌else◌, map,
}
use trading_brain.Quant.Whole.{whole_numbers}
use trading_brain.Paper.Journal.{Side, Fill, Trade, Result, journal_all}
use trading_brain.Paper.Journal.Running.{count_open, is_running, journal_all_lem}

abbrev fill : Side → ℕ → ℕ → ℕ → Fill whole_numbers
fill side price at left = record {
  asset_id = 7;
  side = side;
  quantity = ℤ.pos 10;
  price = ℤ.pos price;
  executed_at = at;
  stop_price = some (ℤ.pos 90);
  remaining_quantity = some (ℤ.pos left);
  current_regime = none;
}

abbrev fills : List (Fill whole_numbers)
fills =
    fill Side.buy 100 1 10
    ∷ fill Side.buy 110 2 20
    ∷ fill Side.sell 120 3 10
    ∷ fill Side.sell 130 4 0
    ∷ []

abbrev outcome : Trade whole_numbers → Option Result × Option ℤ
outcome t = (t.result, t.r_multiple)

-- One trade that won, three times its risk.
won :
    map outcome (journal_all whole_numbers (λ x. x) fills [])
    ≡ (some Result.win, some (ℤ.pos 3)) ∷ []
unfolding journal_all
won = refl

journal_all_lem_example :
    count_open whole_numbers (λ x. x) 7 (journal_all whole_numbers (λ x. x) fills [])
    ≡ (if is_running whole_numbers (λ x. x) 7 fills false then 1 else 0)
journal_all_lem_example = journal_all_lem whole_numbers (λ x. x) fills 7
