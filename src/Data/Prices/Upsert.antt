-- ===== src/Data/Prices/Upsert.antt =====
-- Storing a batch of bars is storing them one at a time, and storing it again changes nothing.
use trading_brain.Base.{
  ℕ, ◌+◌, ◌≡◌, refl, sym, ◌∙◌, ap, subst, arith, Bool, true, false, ◌&&◌, ◌||◌, List, [], ◌∷◌, ◌++◌,
  map, any-append, ◌==◌, if◌then◌else◌, keep, any, length, length-append, Bool-cases, inl, inr, All,
  if_ind,
}
use trading_brain.Quant.Floats.{Floats}
use trading_brain.Data.Prices.{
  SourcedBar, Price, Key, has_key, price_bar_to_model, is_series, existing_of, upsert_from,
  upsert_price_bars,
}

module _ (num : Floats) where
  -- A row for an asset, an interval and a time is stored.
  abbrev pub is_stored : ℕ → ℕ → ℕ → List (Price num) → Bool
  is_stored a i t table =
      any (λ (r : Price num). r.asset_id == a && r.interval == i && r.bar.ts == t) table

  -- No two rows have the asset, the interval and the time in common.
  abbrev pub IsUnique : List (Price num) → Type 0
  IsUnique [] = Unit
  IsUnique (r ∷ table) = (is_stored r.asset_id r.interval r.bar.ts table ≡ false) × IsUnique table

  -- The table after one bar, and after a list of bars one at a time.
  abbrev pub stored_one : ℕ → SourcedBar num → List (Price num) → List (Price num)
  stored_one a b table =
      if is_stored a b.interval b.bar.ts table
      then table
      else table ++ price_bar_to_model num a b ∷ []

  abbrev pub stored_all : ℕ → List (SourcedBar num) → List (Price num) → List (Price num)
  stored_all a [] table = table
  stored_all a (b ∷ bars) table = stored_all a bars (stored_one a b table)

  has_key-existing_of-one :
      (a i j t : ℕ) (table : List (Price num))
      → has_key i t (map (λ (r : Price num). (j, r.bar.ts)) (keep (is_series num a j) table))
        ≡ (i == j && is_stored a i t table)
  has_key-existing_of-one a i j t [] = ground arith
  has_key-existing_of-one a i j t (r ∷ table) =
      ground (arith, has_key-existing_of-one a i j t table)

  has_key-existing_of :
      (a i t : ℕ) (is : List ℕ) (table : List (Price num))
      → has_key i t (existing_of num a is table) ≡ (any (λ j. i == j) is && is_stored a i t table)
  unfolding existing_of
  has_key-existing_of a i t [] table = refl
  has_key-existing_of a i t (j ∷ is) table = ground (
    arith,
    any-append (λ (k : Key). i == k.0 && t == k.1)
        (map (λ (r : Price num). (j, r.bar.ts)) (keep (is_series num a j) table))
        (existing_of num a is table),
    has_key-existing_of-one a i j t table,
    has_key-existing_of a i t is table,
  )

  is_stored-append :
      (a i t : ℕ) (table : List (Price num)) (r : Price num)
      → is_stored a i t (table ++ r ∷ [])
        ≡ (is_stored a i t table || r.asset_id == a && r.interval == i && r.bar.ts == t)
  is_stored-append a i t [] r = ground arith
  is_stored-append a i t (x ∷ table) r = ground (arith, is_stored-append a i t table r)

  module _ (a : ℕ) where
    -- The keys that the loop has at hand say what is stored, for the intervals of the batch.
    abbrev IsCovered : List Key → List Key → List ℕ → List (Price num) → Type 0
    IsCovered existing seen is table =
        (i t : ℕ)
        → any (λ j. i == j) is ≡ true
        → (has_key i t existing || has_key i t seen) ≡ is_stored a i t table

    IsCovered-append :
        (existing seen : List Key) (is : List ℕ) (table : List (Price num)) (b : SourcedBar num)
        → IsCovered existing seen is table
        → IsCovered existing
            ((b.interval, b.bar.ts) ∷ seen)
            is
            (table ++ price_bar_to_model num a b ∷ [])
    IsCovered-append existing seen is table b h i t inside =
        ground (arith, h i t inside, is_stored-append a i t table (price_bar_to_model num a b))

    upsert_from-stored_all :
        (existing seen : List Key) (is : List ℕ) (bars : List (SourcedBar num))
        (table : List (Price num))
        → IsCovered existing seen is table
        → All (λ (b : SourcedBar num). any (λ j. b.interval == j) is ≡ true) bars
        → (upsert_from num a existing seen bars table).0 ≡ stored_all a bars table
    unfolding upsert_from
    upsert_from-stored_all existing seen is [] table h inside = refl
    upsert_from-stored_all existing seen is (b ∷ bars) table h inside =
        elim (Bool-cases
          (has_key b.interval b.bar.ts existing || has_key b.interval b.bar.ts seen)) [
            | inl old ↦
                let stored : is_stored a b.interval b.bar.ts table ≡ true =
                  sym (h b.interval b.bar.ts inside.0) ∙ old in
                rw (old, stored) (upsert_from-stored_all existing seen is bars table h inside.1)
            | inr new ↦
                let absent : is_stored a b.interval b.bar.ts table ≡ false =
                  sym (h b.interval b.bar.ts inside.0) ∙ new in
                rw (new, absent)
                  (upsert_from-stored_all existing ((b.interval, b.bar.ts) ∷ seen) is bars
                    (table ++ price_bar_to_model num a b ∷ [])
                    (IsCovered-append existing seen is table b h) inside.1)
          ]

    -- A batch counts every bar, and the table grows by those it inserts.
    upsert_from-length :
        (existing seen : List Key) (bars : List (SourcedBar num)) (table : List (Price num))
        → let (q, r) = upsert_from num a existing seen bars table in
          (r.inserted + r.skipped ≡ length bars) × (length q ≡ length table + r.inserted)
    unfolding upsert_from
    upsert_from-length existing seen [] table = omega arith
    upsert_from-length existing seen (b ∷ bars) table = ground (
      arith,
      upsert_from-length existing seen bars table,
      upsert_from-length existing ((b.interval, b.bar.ts) ∷ seen) bars
          (table ++ price_bar_to_model num a b ∷ []),
      length-append table (price_bar_to_model num a b ∷ []),
    )

  All-inside :
      (f : SourcedBar num → ℕ) (bars : List (SourcedBar num)) (is : List ℕ)
      → ((j : ℕ) → any (λ k. j == k) (map f bars) ≡ true → any (λ k. j == k) is ≡ true)
      → All (λ (b : SourcedBar num). any (λ k. f b == k) is ≡ true) bars
  All-inside f [] is h = tt
  All-inside f (b ∷ bars) is h =
      (h (f b) (ground arith), All-inside f bars is (λ j inside. h j (ground (arith, inside))))

  -- Storing a batch, with its one query of what is stored for each interval, gives the table that storing
  -- its bars one at a time gives, each only if no row has its asset, its interval and its time.
  pub upsert_price_bars-stored_all :
      (a : ℕ) (bars : List (SourcedBar num)) (table : List (Price num))
      → (upsert_price_bars num a bars table).0 ≡ stored_all a bars table
  unfolding upsert_price_bars
  upsert_price_bars-stored_all a bars table =
      let is = map (λ (b : SourcedBar num). b.interval) bars in
      upsert_from-stored_all a (existing_of num a is table) [] is bars table
        (λ i t inside. ground (arith, has_key-existing_of a i t is table, inside))
        (All-inside (λ (b : SourcedBar num). b.interval) bars is (λ j h. h))

  -- The counts of a batch add up to its length, and the table grows by the number inserted.
  pub upsert_price_bars-length :
      (a : ℕ) (bars : List (SourcedBar num)) (table : List (Price num))
      → let (q, r) = upsert_price_bars num a bars table in
        (r.inserted + r.skipped ≡ length bars) × (length q ≡ length table + r.inserted)
  unfolding upsert_price_bars
  upsert_price_bars-length a bars table = upsert_from-length a _ [] bars table

  IsUnique-append :
      (table : List (Price num)) (r : Price num)
      → IsUnique table
      → is_stored r.asset_id r.interval r.bar.ts table ≡ false
      → IsUnique (table ++ r ∷ [])
  IsUnique-append [] r h absent = (refl, tt)
  IsUnique-append (x ∷ table) r h absent = (
    ground (arith, is_stored-append x.asset_id x.interval x.bar.ts table r, absent, h.0),
    IsUnique-append table r h.1 (ground (arith, absent)),
  )

  stored_one-IsUnique :
      (a : ℕ) (b : SourcedBar num) (table : List (Price num))
      → IsUnique table
      → IsUnique (stored_one a b table)
  stored_one-IsUnique a b table h =
      if_ind IsUnique (is_stored a b.interval b.bar.ts table) (λ _. h)
        (λ absent. IsUnique-append table (price_bar_to_model num a b) h absent)

  stored_all-IsUnique :
      (a : ℕ) (bars : List (SourcedBar num)) (table : List (Price num))
      → IsUnique table
      → IsUnique (stored_all a bars table)
  stored_all-IsUnique a [] table h = h
  stored_all-IsUnique a (b ∷ bars) table h =
      stored_all-IsUnique a bars (stored_one a b table) (stored_one-IsUnique a b table h)

  -- A table without duplicates stays one, whatever batches come in and whatever they repeat.
  upsert_price_bars-IsUnique :
      (a : ℕ) (bars : List (SourcedBar num)) (table : List (Price num))
      → IsUnique table
      → IsUnique (upsert_price_bars num a bars table).0
  upsert_price_bars-IsUnique a bars table h =
      subst IsUnique (sym (upsert_price_bars-stored_all a bars table))
        (stored_all-IsUnique a bars table h)

  is_stored-stored_one :
      (a c i t : ℕ) (b : SourcedBar num) (table : List (Price num))
      → is_stored c i t table ≡ true
      → is_stored c i t (stored_one a b table) ≡ true
  is_stored-stored_one a c i t b table h =
      ground (arith, is_stored-append c i t table (price_bar_to_model num a b), h)

  is_stored-stored_all :
      (a c i t : ℕ) (bars : List (SourcedBar num)) (table : List (Price num))
      → is_stored c i t table ≡ true
      → is_stored c i t (stored_all a bars table) ≡ true
  is_stored-stored_all a c i t [] table h = h
  is_stored-stored_all a c i t (b ∷ bars) table h =
      is_stored-stored_all a c i t bars (stored_one a b table)
        (is_stored-stored_one a c i t b table h)

  -- Every bar of the batch is stored afterwards.
  stored_all-All :
      (a : ℕ) (bars : List (SourcedBar num)) (table : List (Price num))
      → All
          (λ (b : SourcedBar num). is_stored a b.interval b.bar.ts (stored_all a bars table) ≡ true)
          bars
  stored_all-All a [] table = tt
  stored_all-All a (b ∷ bars) table = (
    is_stored-stored_all a a b.interval b.bar.ts bars (stored_one a b table)
        (ground (arith, is_stored-append a b.interval b.bar.ts table (price_bar_to_model num a b))),
    stored_all-All a bars (stored_one a b table),
  )

  stored_all-id :
      (a : ℕ) (bars : List (SourcedBar num)) (table : List (Price num))
      → All (λ (b : SourcedBar num). is_stored a b.interval b.bar.ts table ≡ true) bars
      → stored_all a bars table ≡ table
  stored_all-id a [] table h = refl
  stored_all-id a (b ∷ bars) table h = rw h.0 (stored_all-id a bars table h.1)

  -- To store a batch again changes nothing: no row is added, and every bar is counted as skipped.
  pub upsert_price_bars_idempotent :
      (a : ℕ) (bars : List (SourcedBar num)) (table : List (Price num))
      → let once = (upsert_price_bars num a bars table).0 in
        upsert_price_bars num a bars once ≡ (once, record { inserted = 0; skipped = length bars })
  upsert_price_bars_idempotent a bars table =
      let once = (upsert_price_bars num a bars table).0 in
      let kept : (upsert_price_bars num a bars once).0 ≡ once =
        upsert_price_bars-stored_all a bars once
        ∙ subst (λ q. stored_all a bars q ≡ q) (sym (upsert_price_bars-stored_all a bars table))
            (stored_all-id a bars (stored_all a bars table) (stored_all-All a bars table)) in
      ground (arith, kept, ap length kept, upsert_price_bars-length a bars once)
