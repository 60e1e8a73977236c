-- ===== src/Paper/Journal/Running.antt =====
-- Which trades are open after any fills.
use trading_brain.Base.{
  ℕ, ◌+◌, ◌≤◌, ◌≡◌, refl, subst, arith, Bool, true, false, not, ◌&&◌, Option, none, some, List, [],
  ◌∷◌, ltb, ◌==◌, if◌then◌else◌, if_ind, keep, keep-append, length, length-append, ap, Option-cases,
  inl, inr,
}
use trading_brain.Quant.Floats.{Floats}
use trading_brain.Paper.Journal.{
  Side, Trade, Fill, open_trade_record, close_trade_record, is_open_for, extend, find_open_trade,
  update_at, is_partial, journal_paper_fill, journal_all,
}

module _ (num : Floats) (round4 : num.F → num.F) where
  -- How many trades of the asset are open.
  abbrev pub count_open : ℕ → List (Trade num) → ℕ
  count_open a table = length (keep (is_open_for num a) table)

  -- What holds of the place that is found for the asset `a`, for the open trades of `b`.
  abbrev Closes : ℕ → ℕ → num.F → ℕ → List (Trade num) → Option (ℕ × ℕ) → Type 0
  Closes a b price now table none = count_open a table ≡ 0
  Closes a b price now table (some (n, t)) =
      (1 ≤ count_open a table)
      × (count_open b (update_at num n (close_trade_record num round4 price now) table)
            + (if a == b then 1 else 0)
          ≡ count_open b table)

  extend-Closes :
      (a b : ℕ) (price : num.F) (now : ℕ) (t : Trade num) (table : List (Trade num))
      (found : Option (ℕ × ℕ))
      → Closes a b price now table found
      → Closes a b price now (t ∷ table) (extend num a t found)
  unfolding update_at close_trade_record
  extend-Closes a b price now t table none h =
      if_ind (Closes a b price now (t ∷ table)) (is_open_for num a t)
        (λ e. (ground (arith, e), ground (arith, e, h))) (λ e. ground (arith, e, h))
  extend-Closes a b price now t table (some (n, latest)) h =
      if_ind (Closes a b price now (t ∷ table))
        (is_open_for num a t && not (ltb t.opened_at latest))
        (λ e. (ground (arith, e), ground (arith, e)))
        (λ e. (ground (arith, h.0), ground (arith, h.1)))

  find_open_trade-Closes :
      (a b : ℕ) (price : num.F) (now : ℕ) (table : List (Trade num))
      → Closes a b price now table (find_open_trade num a table)
  unfolding find_open_trade
  find_open_trade-Closes a b price now [] = refl
  find_open_trade-Closes a b price now (t ∷ table) =
      extend-Closes a b price now t table (find_open_trade num a table)
        (find_open_trade-Closes a b price now table)

  -- Whether a trade of the asset runs after a fill: a purchase starts one, a sale that leaves nothing ends
  -- it, and nothing else matters.
  abbrev pub runs_after : ℕ → Fill num → Bool → Bool
  runs_after a f running =
      if f.asset_id == a
      then (elim f.side [
        | Side.buy ↦ true
        | Side.sell ↦ if is_partial num f then running else false
        | Side.other ↦ running
      ])
      else running

  abbrev pub is_running : ℕ → List (Fill num) → Bool → Bool
  is_running a [] running = running
  is_running a (f ∷ fills) running = is_running a fills (runs_after a f running)

  journal_paper_fill_lem :
      (a : ℕ) (f : Fill num) (table : List (Trade num)) (running : Bool)
      → count_open a table ≡ (if running then 1 else 0)
      → count_open a (journal_paper_fill num round4 f table).0
        ≡ (if runs_after a f running then 1 else 0)
  unfolding journal_paper_fill open_trade_record
  journal_paper_fill_lem a f table running h =
      let found = find_open_trade num f.asset_id table in
      let closes = find_open_trade-Closes f.asset_id a f.price f.executed_at table in
      elim (Option-cases found) [
        | inl missing ↦
            let opened = open_trade_record num f in
            ground (
              arith,
              missing,
              h,
              subst (Closes f.asset_id a f.price f.executed_at table) missing closes,
              ap length (keep-append (is_open_for num a) table (opened ∷ [])),
              length-append (keep (is_open_for num a) table)
                  (keep (is_open_for num a) (opened ∷ [])),
            )
        | inr (place, there) ↦
            let (some_open, closed) =
              subst (Closes f.asset_id a f.price f.executed_at table) there closes in
            ground (arith, there, h, some_open, closed)
      ]

  journal_all-from :
      (fills : List (Fill num)) (a : ℕ) (table : List (Trade num)) (running : Bool)
      → count_open a table ≡ (if running then 1 else 0)
      → count_open a (journal_all num round4 fills table)
        ≡ (if is_running a fills running then 1 else 0)
  unfolding journal_all
  journal_all-from [] a table running h = h
  journal_all-from (f ∷ fills) a table running h =
      journal_all-from fills a (journal_paper_fill num round4 f table).0 (runs_after a f running)
        (journal_paper_fill_lem a f table running h)

  -- After any fills, for any asset: the journal has one open trade of it if the last of its purchases and of
  -- the sales that left nothing was a purchase, and none otherwise; never two.
  pub journal_all_lem :
      (fills : List (Fill num)) (a : ℕ)
      → count_open a (journal_all num round4 fills []) ≡ (if is_running a fills false then 1 else 0)
  journal_all_lem fills a = journal_all-from fills a [] false refl
