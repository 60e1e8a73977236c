-- ===== src/Paper/Journal.antt =====
-- paper_trading/journal.py: paper fills as trades of the journal. A trade is named by its place in the table.
-- `round(x, 4)` is a parameter. The strategy, the target and the timeframe of a trade are left out.
pub mod Running
use trading_brain.Base.{
  ℕ, zero, suc, ◌+◌, Bool, true, false, not, ◌&&◌, Option, none, some, List, [], ◌∷◌, ◌++◌, ltb,
  ◌==◌, if◌then◌else◌, when_some, length,
}
use trading_brain.Quant.Floats.{Floats}
use trading_brain.Quant.Accounting.{zero_of}

pub data Result : Type 0 where
  win loss breakeven : Result

pub data Side : Type 0 where
  buy sell other : Side

module _ (num : Floats) where
  -- `Trade`; a trade is open until it is closed.
  pub record Trade : Type 0 where
    pub asset_id : ℕ
    pub entry_price : num.F
    pub stop_price : Option num.F
    pub risk_amount : Option num.F
    pub position_size : num.F
    pub is_closed : Bool
    pub market_regime : Option ℕ
    pub opened_at : ℕ
    pub closed_at : Option ℕ
    pub r_multiple : Option num.F
    pub result : Option Result

  -- The arguments of `journal_paper_fill`, and what `_current_regime` finds at the call.
  pub record Fill : Type 0 where
    pub asset_id : ℕ
    pub side : Side
    pub quantity : num.F
    pub price : num.F
    pub executed_at : ℕ
    pub stop_price : Option num.F
    pub remaining_quantity : Option num.F
    pub current_regime : Option ℕ

module _ (num : Floats) where
  -- `open_trade_record`
  unfoldable pub open_trade_record : Fill num → Trade num
  open_trade_record f = record {
    asset_id = f.asset_id;
    entry_price = f.price;
    stop_price = f.stop_price;
    risk_amount =
        when_some f.stop_price none
          λ stop. some (num.mul (num.abs (num.sub f.price stop)) f.quantity);
    position_size = f.quantity;
    is_closed = false;
    market_regime = f.current_regime;
    opened_at = f.executed_at;
    closed_at = none;
    r_multiple = none;
    result = none;
  }

  -- `r_multiple` of a long trade whose stop is not its entry.
  abbrev pub r_multiple_of : num.F → num.F → num.F → num.F
  r_multiple_of entry stop exit_price =
      num.div (num.sub exit_price entry) (num.abs (num.sub entry stop))

  abbrev pub result_of : num.F → Result
  result_of pnl =
      if num.lt (zero_of num) pnl
      then Result.win
      else if num.lt pnl (zero_of num)
      then Result.loss
      else Result.breakeven

  -- `close_trade_record`
  unfoldable pub close_trade_record : (num.F → num.F) → num.F → ℕ → Trade num → Trade num
  close_trade_record round4 exit_price closed_at t = record t {
    is_closed = true;
    closed_at = some closed_at;
    r_multiple = when_some t.stop_price t.r_multiple λ stop.
        if num.eq stop t.entry_price
        then t.r_multiple
        else some (round4 (r_multiple_of t.entry_price stop exit_price));
    result = some (result_of (num.mul (num.sub exit_price t.entry_price) t.position_size));
  }

  abbrev pub is_open_for : ℕ → Trade num → Bool
  is_open_for asset_id t = t.asset_id == asset_id && not t.is_closed

  -- `find_open_trade`: the place of the open trade of the asset that was opened last, with its time.
  abbrev pub extend : ℕ → Trade num → Option (ℕ × ℕ) → Option (ℕ × ℕ)
  extend asset_id t none = if is_open_for asset_id t then some (0, t.opened_at) else none
  extend asset_id t (some (n, latest)) =
      if is_open_for asset_id t && not (ltb t.opened_at latest)
      then some (0, t.opened_at)
      else some (suc n, latest)

  unfoldable pub find_open_trade : ℕ → List (Trade num) → Option (ℕ × ℕ)
  find_open_trade asset_id [] = none
  find_open_trade asset_id (t ∷ table) = extend asset_id t (find_open_trade asset_id table)

  -- A change of the trade at a place.
  unfoldable pub update_at : ℕ → (Trade num → Trade num) → List (Trade num) → List (Trade num)
  update_at n g [] = []
  update_at zero g (t ∷ table) = g t ∷ table
  update_at (suc n) g (t ∷ table) = t ∷ update_at n g table

  -- `remaining_quantity is not None and remaining_quantity > 0`
  abbrev pub is_partial : Fill num → Bool
  is_partial f = when_some f.remaining_quantity false (num.lt (zero_of num))

  -- `journal_paper_fill`: the table afterwards, and the place of the trade that is returned.
  unfoldable pub journal_paper_fill :
      (num.F → num.F) → Fill num → List (Trade num) → List (Trade num) × Option ℕ
  unfolding open_trade_record close_trade_record find_open_trade update_at
  journal_paper_fill round4 f table = elim f.side [
    | Side.buy ↦ elim (find_open_trade f.asset_id table) [
      | some (n, t) ↦ (table, some n)
      | none ↦ (table ++ open_trade_record f ∷ [], some (length table))
    ]
    | Side.sell ↦ elim (find_open_trade f.asset_id table) [
      | none ↦ (table, none)
      | some (n, t) ↦
          if is_partial f
          then (table, some n)
          else (update_at n (close_trade_record round4 f.price f.executed_at) table, some n)
    ]
    | Side.other ↦ (table, none)
  ]

  -- Fills one after another.
  unfoldable pub journal_all :
      (num.F → num.F) → List (Fill num) → List (Trade num) → List (Trade num)
  unfolding journal_paper_fill
  journal_all round4 [] table = table
  journal_all round4 (f ∷ fills) table =
      journal_all round4 fills (journal_paper_fill round4 f table).0
