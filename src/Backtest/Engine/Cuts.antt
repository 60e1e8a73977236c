-- ===== src/Backtest/Engine/Cuts.antt =====
-- Bars that lie after a time change nothing in what the engine reads up to that time.
use trading_brain.Base.{
  ℕ, ◌≤◌, ◌≡◌, ◌≢◌, refl, ap, sym, ◌∙◌, arith, Bool, true, false, Option, some, List, [], ◌∷◌, ◌++◌,
  map, leb, ◌==◌, if◌then◌else◌, keep, sort, insert_sorted, insert_sorted-All, sort-All, up_to,
  up_to-sort, All, All-map, keep-append, if_ind,
}
use trading_brain.Quant.Floats.{Floats}
use trading_brain.Backtest.Schemas.{Ticker, PriceBar}
use trading_brain.Backtest.MarketView.{Series, bars_to, is_filled, cut_item, at, bars_of}
use trading_brain.Backtest.Fills.{find_at}
use trading_brain.Backtest.Engine.{
  sort_bars, sort_item, ticker_key, history_of, build_timeline, stamps, not_before, not_after,
  sorted_set,
}

keep_both :
    {A : Type 0} (key : A → ℕ) (s t : ℕ) (xs : List A)
    → s ≤ t
    → up_to key s (up_to key t xs) ≡ up_to key s xs
keep_both key s t [] h = refl
keep_both key s t (x ∷ xs) h = ground (arith, keep_both key s t xs h)

module _ (num : Floats) where
  -- The series without the bars after `t`.
  abbrev pub cut : ℕ → Series num → Series num
  cut t = map (cut_item num t)

  -- No ticker has two entries.
  abbrev pub IsDict : Series num → Type 0
  IsDict [] = Unit
  IsDict (p ∷ s) = All (λ (q : Ticker × List (PriceBar num)). p.0 ≢ q.0) s × IsDict s

  bars_to-sort :
      (s t : ℕ) (bs : List (PriceBar num))
      → s ≤ t
      → bars_to num s (sort_bars num (bars_to num t bs)) ≡ bars_to num s (sort_bars num bs)
  bars_to-sort s t bs h =
      ap (bars_to num s) (sym (up_to-sort (λ b. b.ts) t bs))
      ∙ keep_both (λ b. b.ts) s t (sort_bars num bs) h

  find_at-bars_to :
      (s t : ℕ) (bs : List (PriceBar num))
      → s ≤ t
      → find_at num s (bars_to num t bs) ≡ find_at num s bs
  find_at-bars_to s t [] h = refl
  find_at-bars_to s t (b ∷ bs) h = ground (arith, find_at-bars_to s t bs h)

  find_at-sort :
      (s t : ℕ) (bs : List (PriceBar num))
      → s ≤ t
      → find_at num s (sort_bars num (bars_to num t bs)) ≡ find_at num s (sort_bars num bs)
  find_at-sort s t bs h =
      ap (find_at num s) (sym (up_to-sort (λ b. b.ts) t bs))
      ∙ find_at-bars_to s t (sort_bars num bs) h

  -- What `history_of` makes of entries that are in order.
  abbrev prepared : Series num → Series num
  prepared s = map (sort_item num) (keep (is_filled num) s)

  abbrev add_item : Ticker × List (PriceBar num) → Series num → Series num
  add_item p s = if is_filled num p then p ∷ s else s

  abbrev viewed : ℕ → Series num → Series num
  viewed s h = keep (is_filled num) (map (cut_item num s) (prepared h))

  viewed_item :
      (s : ℕ) (k : Ticker) (bs : List (PriceBar num)) (rest : Series num)
      → viewed s ((k, bs) ∷ rest) ≡ add_item (k, bars_to num s (sort_bars num bs)) (viewed s rest)
  viewed_item s k [] rest = refl
  viewed_item s k (b ∷ bs) rest = refl

  viewed-cut : (s t : ℕ) (h : Series num) → s ≤ t → viewed s (cut t h) ≡ viewed s h
  viewed-cut s t [] le = refl
  viewed-cut s t ((k, bs) ∷ rest) le =
      viewed_item s k (bars_to num t bs) (cut t rest)
      ∙ rw (bars_to-sort s t bs le, viewed-cut s t rest le) (sym (viewed_item s k bs rest))

  absent :
      (k : Ticker) (h : Series num)
      → All (λ (q : Ticker × List (PriceBar num)). k ≢ q.0) h
      → bars_of num k (prepared h) ≡ []
  absent k [] a = refl
  absent k ((j, []) ∷ rest) a = absent k rest a.1
  absent k ((j, b ∷ bs) ∷ rest) a = ground (arith, a.0, absent k rest a.1)

  bars_of_item :
      (k j : Ticker) (bs : List (PriceBar num)) (rest : Series num)
      → IsDict ((j, bs) ∷ rest)
      → bars_of num k (prepared ((j, bs) ∷ rest))
        ≡ (if k == j then sort_bars num bs else bars_of num k (prepared rest))
  bars_of_item k j [] rest d =
      if_ind (λ (x : List (PriceBar num)). bars_of num k (prepared rest) ≡ x) (k == j)
        (λ same. absent k rest (All-map _ _ rest (λ q ne. ground (arith, same, ne)) d.0))
        (λ _. refl)
  bars_of_item k j (b ∷ bs) rest d = ground arith

  IsDict-cut : (t : ℕ) (h : Series num) → IsDict h → IsDict (cut t h)
  IsDict-cut t [] d = tt
  IsDict-cut t (p ∷ rest) d = (keys rest d.0, IsDict-cut t rest d.1)
    where
      keys :
          (s : Series num)
          → All (λ (q : Ticker × List (PriceBar num)). p.0 ≢ q.0) s
          → All (λ (q : Ticker × List (PriceBar num)). p.0 ≢ q.0) (cut t s)
      keys [] a = tt
      keys (q ∷ s) a = (a.0, keys s a.1)

  either :
      (s : ℕ) (same : Bool) (x y z w : List (PriceBar num))
      → find_at num s x ≡ find_at num s z
      → find_at num s y ≡ find_at num s w
      → find_at num s (if same then x else y) ≡ find_at num s (if same then z else w)
  either s true x y z w hx hy = hx
  either s false x y z w hx hy = hy

  find_at-cut :
      (s t : ℕ) (k : Ticker) (h : Series num)
      → s ≤ t
      → IsDict h
      → find_at num s (bars_of num k (prepared (cut t h)))
        ≡ find_at num s (bars_of num k (prepared h))
  find_at-cut s t k [] le d = refl
  find_at-cut s t k ((j, bs) ∷ rest) le d =
      rw
        (
          bars_of_item k j bs rest d,
          bars_of_item k j (bars_to num t bs) (cut t rest) (IsDict-cut t ((j, bs) ∷ rest) d),
        )
        (either s (k == j) (sort_bars num (bars_to num t bs))
          (bars_of num k (prepared (cut t rest))) (sort_bars num bs) (bars_of num k (prepared rest))
          (find_at-sort s t bs le) (find_at-cut s t k rest le d.1))

  stamps_item :
      (k : Ticker) (bs : List (PriceBar num)) (rest : Series num)
      → stamps num (prepared ((k, bs) ∷ rest))
        ≡ map (λ (b : PriceBar num). b.ts) (sort_bars num bs) ++ stamps num (prepared rest)
  stamps_item k [] rest = refl
  stamps_item k (b ∷ bs) rest = refl

  abbrev wanted : Option ℕ → ℕ → List ℕ → List ℕ
  wanted start t ts = keep (not_after (some t)) (keep (not_before start) ts)

  wanted_bars :
      (start : Option ℕ) (t : ℕ) (bs : List (PriceBar num))
      → wanted start t (map (λ (b : PriceBar num). b.ts) (bars_to num t bs))
        ≡ wanted start t (map (λ (b : PriceBar num). b.ts) bs)
  wanted_bars start t [] = refl
  wanted_bars start t (b ∷ bs) = ground (arith, wanted_bars start t bs)

  wanted-append :
      (start : Option ℕ) (t : ℕ) (xs ys : List ℕ)
      → wanted start t (xs ++ ys) ≡ wanted start t xs ++ wanted start t ys
  wanted-append start t xs ys =
      ap (keep (not_after (some t))) (keep-append (not_before start) xs ys)
      ∙ keep-append (not_after (some t)) (keep (not_before start) xs) _

  wanted-cut :
      (start : Option ℕ) (t : ℕ) (h : Series num)
      → wanted start t (stamps num (prepared (cut t h))) ≡ wanted start t (stamps num (prepared h))
  wanted-cut start t [] = refl
  wanted-cut start t ((k, bs) ∷ rest) =
      rw
        (
          stamps_item k (bars_to num t bs) (cut t rest),
          stamps_item k bs rest,
          wanted-append start t
              (map (λ (b : PriceBar num). b.ts) (sort_bars num (bars_to num t bs)))
              (stamps num (prepared (cut t rest))),
          wanted-append start t (map (λ (b : PriceBar num). b.ts) (sort_bars num bs))
              (stamps num (prepared rest)),
          wanted-cut start t rest,
          sym (up_to-sort (λ (b : PriceBar num). b.ts) t bs),
          wanted_bars start t (sort_bars num bs),
        )
        refl

  -- The order of the tickers is that of the series from which nothing is cut.
  insert_sorted-cut :
      (t : ℕ) (p : Ticker × List (PriceBar num)) (h : Series num)
      → insert_sorted (ticker_key num) (cut_item num t p) (cut t h)
        ≡ cut t (insert_sorted (ticker_key num) p h)
  insert_sorted-cut t p [] = refl
  insert_sorted-cut t p (q ∷ h) = ground (arith, insert_sorted-cut t p h)

  sort-cut :
      (t : ℕ) (h : Series num) → sort (ticker_key num) (cut t h) ≡ cut t (sort (ticker_key num) h)
  sort-cut t [] = refl
  sort-cut t (p ∷ h) =
      ap (insert_sorted (ticker_key num) (cut_item num t p)) (sort-cut t h)
      ∙ insert_sorted-cut t p (sort (ticker_key num) h)

  IsDict-insert_sorted :
      (p : Ticker × List (PriceBar num)) (h : Series num)
      → All (λ (q : Ticker × List (PriceBar num)). p.0 ≢ q.0) h
      → IsDict h
      → IsDict (insert_sorted (ticker_key num) p h)
  IsDict-insert_sorted p [] a d = (tt, tt)
  IsDict-insert_sorted p (q ∷ h) a d =
      if_ind IsDict (leb p.0 q.0) (λ _. (a, d))
        (λ _. (
          insert_sorted-All (ticker_key num) (λ (r : Ticker × List (PriceBar num)). q.0 ≢ r.0) p h
              (λ e. a.0 (sym e)) d.0,
          IsDict-insert_sorted p h a.1 d.1,
        ))

  IsDict-sort : (h : Series num) → IsDict h → IsDict (sort (ticker_key num) h)
  IsDict-sort [] d = tt
  IsDict-sort (p ∷ h) d =
      IsDict-insert_sorted p (sort (ticker_key num) h)
        (sort-All (ticker_key num) (λ (r : Ticker × List (PriceBar num)). p.0 ≢ r.0) h d.0)
        (IsDict-sort h d.1)

  -- The view at a time up to `t`, a bar at a time up to `t`, and the timeline up to `t` are the same.
  pub at-cut :
      (s t : ℕ) (h : Series num)
      → s ≤ t
      → at num (history_of num (cut t h)) s ≡ at num (history_of num h) s
  unfolding history_of at
  at-cut s t h le = rw (sort-cut t h) (
      ap (λ v. record { timestamp = s; history = v }) (viewed-cut s t (sort (ticker_key num) h) le))

  pub bar-cut :
      (s t : ℕ) (k : Ticker) (h : Series num)
      → s ≤ t
      → IsDict h
      → find_at num s (bars_of num k (history_of num (cut t h)))
        ≡ find_at num s (bars_of num k (history_of num h))
  unfolding history_of
  bar-cut s t k h le d =
      rw (sort-cut t h) (find_at-cut s t k (sort (ticker_key num) h) le (IsDict-sort h d))

  pub timeline-cut :
      (start : Option ℕ) (t : ℕ) (h : Series num)
      → build_timeline num (history_of num (cut t h)) start (some t)
        ≡ build_timeline num (history_of num h) start (some t)
  unfolding history_of build_timeline
  timeline-cut start t h =
      rw (sort-cut t h) (ap sorted_set (wanted-cut start t (sort (ticker_key num) h)))
