-- ===== src/Data/Validation/Sound.antt =====
-- What passes the validation is sound, and every bar is accounted for.
use trading_brain.Base.{
  ℕ, ◌+◌, ◌≤◌, ◌<◌, ◌≡◌, ◌≢◌, refl, ap, sym, ◌∙◌, subst, arith, true, false, none, List, [], ◌∷◌,
  ◌++◌, leb, if◌then◌else◌, keep, keep-append, length, length-append, sort, insert_sorted,
  insert_sorted-All, sort-All, sort-IsSorted, IsSorted, All, All-map, All-append, is_negative,
  if_ind, Option-cases, inl, inr,
}
use trading_brain.Quant.Floats.{Floats, max_of, min_of}
use trading_brain.Backtest.Schemas.{PriceBar}
use trading_brain.Data.Validation.{
  IssueCode, ValidationSeverity, ValidationIssue, is_error, future_tolerance, check_value,
  check_bar, Progress, accept, check_one, check_all, was_seen, errors, rejected_count, nothing_yet,
  validate_price_bars,
}

-- A price: there, and not at or below 0.
pub record IsPrice (num : Floats) (x : num.F) : Type 0 where
  pub present : num.is_missing x ≡ false
  pub positive : num.le x (num.whole 0) ≡ false

pub record IsSane (num : Floats) (now : ℕ) (b : PriceBar num) : Type 0 where
  pub open_price : IsPrice num b.open_price
  pub high : IsPrice num b.high
  pub low : IsPrice num b.low
  pub close : IsPrice num b.close
  pub range : num.lt b.high b.low ≡ false
  pub high_body : num.lt b.high (max_of num b.open_price b.close) ≡ false
  pub low_body : num.lt (min_of num b.open_price b.close) b.low ≡ false
  pub volume : is_negative b.volume ≡ false
  pub time : b.ts ≤ now + future_tolerance

module _ (num : Floats) (now : ℕ) where
  check_bar-IsSane : (b : PriceBar num) → check_bar num now b ≡ none → IsSane num now b
  unfolding check_bar check_value
  check_bar-IsSane b h = ground (arith, h)

  abbrev IsDistinct : List (PriceBar num) → Type 0
  IsDistinct [] = Unit
  IsDistinct (b ∷ bs) = All (λ (c : PriceBar num). b.ts ≢ c.ts) bs × IsDistinct bs

  -- After `n` bars: the valid ones are sane, their times were seen and differ from each other, and each
  -- of the others has left one error.
  record IsSound (n : ℕ) (p : Progress num) : Type 0 where
    sane : All (IsSane num now) p.valid_bars
    seen : All (λ (b : PriceBar num). was_seen num b.ts p.seen_timestamps ≡ true) p.valid_bars
    distinct : IsDistinct p.valid_bars
    counted : length p.valid_bars + length (keep is_error p.issues) ≡ n

  IsDistinct-append :
      (bs : List (PriceBar num)) (b : PriceBar num)
      → All (λ (c : PriceBar num). c.ts ≢ b.ts) bs
      → IsDistinct bs
      → IsDistinct (bs ++ b ∷ [])
  IsDistinct-append [] b new h = (tt, tt)
  IsDistinct-append (c ∷ bs) b new h = (
    All-append (λ (d : PriceBar num). c.ts ≢ d.ts) bs (b ∷ []) h.0 (new.0, tt),
    IsDistinct-append bs b new.1 h.1,
  )

  errors_after :
      (issues : List ValidationIssue) (i : ValidationIssue)
      → length (keep is_error (issues ++ i ∷ []))
        ≡ length (keep is_error issues) + (if is_error i then 1 else 0)
  errors_after issues i =
      ap length (keep-append is_error issues (i ∷ []))
      ∙ length-append (keep is_error issues) (keep is_error (i ∷ []))
      ∙ ap (λ n. length (keep is_error issues) + n) (ground arith)

  accept-fields :
      (b : PriceBar num) (p : Progress num)
      → ((accept num b p).valid_bars ≡ p.valid_bars ++ b ∷ [])
        × ((accept num b p).seen_timestamps ≡ b.ts ∷ p.seen_timestamps)
        × (length (keep is_error (accept num b p).issues) ≡ length (keep is_error p.issues))
  unfolding accept
  accept-fields b p = (
    ground arith,
    ground arith,
    ground (
      arith,
      errors_after p.issues (record {
        code = IssueCode.unordered_timestamps;
        severity = ValidationSeverity.warning;
        ts = b.ts;
      }),
    ),
  )

  IsSound-accept :
      (n : ℕ) (b : PriceBar num) (p : Progress num)
      → IsSane num now b
      → was_seen num b.ts p.seen_timestamps ≡ false
      → IsSound n p
      → IsSound (n + 1) (accept num b p)
  IsSound-accept n b p sane new h =
      let (valid, seen, same) = accept-fields b p in
      record {
        sane = rw valid (All-append (IsSane num now) p.valid_bars (b ∷ []) h.sane (sane, tt));
        seen =
            rw (valid, seen)
              (All-append
                (λ (c : PriceBar num). was_seen num c.ts (b.ts ∷ p.seen_timestamps) ≡ true)
                p.valid_bars (b ∷ []) (All-map _ _ p.valid_bars (λ c k. ground (arith, k)) h.seen)
                (ground arith, tt));
        distinct = rw valid (
            IsDistinct-append p.valid_bars b
              (All-map _ _ p.valid_bars (λ c k e. ground (arith, e, k, new)) h.seen) h.distinct);
        counted = rw (valid, same) (omega (arith, h.counted, length-append p.valid_bars (b ∷ [])));
      }

  IsSound-rejected :
      (n : ℕ) (p : Progress num) (i : ValidationIssue)
      → is_error i ≡ true
      → IsSound n p
      → IsSound (n + 1) (record p { issues = p.issues ++ i ∷ [] })
  IsSound-rejected n p i e h = record {
    sane = h.sane;
    seen = h.seen;
    distinct = h.distinct;
    counted = ground (arith, h.counted, errors_after p.issues i, e);
  }

  IsSound-check_one :
      (n : ℕ) (b : PriceBar num) (p : Progress num)
      → IsSound n p
      → IsSound (n + 1) (check_one num now b p)
  unfolding check_one
  IsSound-check_one n b p h = elim (Option-cases (check_bar num now b)) [
    | inl sound ↦
        rw (sound, check_one)
          (if_ind (IsSound (n + 1)) (was_seen num b.ts p.seen_timestamps)
            (λ _. IsSound-rejected n p _ refl h)
            (λ new. IsSound-accept n b p (check_bar-IsSane b sound) new h))
    | inr (code, wrong) ↦ rw (wrong, check_one) (IsSound-rejected n p _ refl h)
  ]

  IsSound-check_all :
      (bs : List (PriceBar num)) (n : ℕ) (p : Progress num)
      → IsSound n p
      → IsSound (n + length bs) (check_all num now bs p)
  unfolding check_all
  IsSound-check_all [] n p h = subst (λ m. IsSound m p) {x = n} {y = n + 0} (omega arith) h
  IsSound-check_all (b ∷ bs) n p h =
      subst (λ m. IsSound m (check_all num now bs (check_one num now b p))) {x = n + 1 + length bs}
        {y = n + length (b ∷ bs)} (omega arith)
        (IsSound-check_all bs (n + 1) (check_one num now b p) (IsSound-check_one n b p h))

  -- Each bar is strictly later than the ones before it.
  abbrev pub IsChronological : List (PriceBar num) → Type 0
  IsChronological [] = Unit
  IsChronological (b ∷ bs) = All (λ (c : PriceBar num). b.ts < c.ts) bs × IsChronological bs

  both :
      (b : PriceBar num) (bs : List (PriceBar num))
      → All (λ (c : PriceBar num). b.ts ≤ c.ts) bs
      → All (λ (c : PriceBar num). b.ts ≢ c.ts) bs
      → All (λ (c : PriceBar num). b.ts < c.ts) bs
  both b [] le ne = tt
  both b (c ∷ bs) le ne = (omega (arith, le.0, ne.0), both b bs le.1 ne.1)

  chronological :
      (bs : List (PriceBar num))
      → IsSorted (λ (b : PriceBar num). b.ts) bs
      → IsDistinct bs
      → IsChronological bs
  chronological [] h d = tt
  chronological (b ∷ bs) h d = (both b bs h.0 d.0, chronological bs h.1 d.1)

  IsDistinct-insert_sorted :
      (b : PriceBar num) (bs : List (PriceBar num))
      → All (λ (c : PriceBar num). b.ts ≢ c.ts) bs
      → IsDistinct bs
      → IsDistinct (insert_sorted (λ (c : PriceBar num). c.ts) b bs)
  IsDistinct-insert_sorted b [] new d = (tt, tt)
  IsDistinct-insert_sorted b (c ∷ bs) new d =
      if_ind IsDistinct (leb b.ts c.ts) (λ _. (new, d))
        (λ _. (
          insert_sorted-All (λ (x : PriceBar num). x.ts) (λ (x : PriceBar num). c.ts ≢ x.ts) b bs
              (λ e. new.0 (sym e)) d.0,
          IsDistinct-insert_sorted b bs new.1 d.1,
        ))

  IsDistinct-sort :
      (bs : List (PriceBar num)) → IsDistinct bs → IsDistinct (sort (λ (c : PriceBar num). c.ts) bs)
  IsDistinct-sort [] d = tt
  IsDistinct-sort (b ∷ bs) d =
      IsDistinct-insert_sorted b (sort (λ (c : PriceBar num). c.ts) bs)
        (sort-All (λ (c : PriceBar num). c.ts) (λ (c : PriceBar num). b.ts ≢ c.ts) bs d.0)
        (IsDistinct-sort bs d.1)

  length-insert_sorted :
      (b : PriceBar num) (bs : List (PriceBar num))
      → length (insert_sorted (λ (c : PriceBar num). c.ts) b bs) ≡ length bs + 1
  length-insert_sorted b [] = omega arith
  length-insert_sorted b (c ∷ bs) = ground (arith, length-insert_sorted b bs)

  length-sort :
      (bs : List (PriceBar num)) → length (sort (λ (c : PriceBar num). c.ts) bs) ≡ length bs
  length-sort [] = refl
  length-sort (b ∷ bs) =
      omega (arith, length-insert_sorted b (sort (λ (c : PriceBar num). c.ts) bs), length-sort bs)

  -- Every bar that a validation reports as valid is sane, the valid bars are in strictly increasing order
  -- of time, and each of the other bars has left exactly one error.
  pub validate_price_bars_sound :
      (bars : List (PriceBar num))
      → let report = validate_price_bars num bars now in
        All (IsSane num now) report.valid_bars
        × IsChronological report.valid_bars
        × (rejected_count num report ≡ length (errors num report))
        × (length report.valid_bars ≤ length bars)
  unfolding validate_price_bars
  validate_price_bars_sound bars =
      let h =
        IsSound-check_all bars 0 (nothing_yet num)
          (record { sane = tt; seen = tt; distinct = tt; counted = refl }) in
      let valid : List (PriceBar num) = (check_all num now bars (nothing_yet num)).valid_bars in
      (
        sort-All (λ (b : PriceBar num). b.ts) (IsSane num now) valid h.sane,
        chronological (sort (λ (b : PriceBar num). b.ts) valid)
            (sort-IsSorted (λ (b : PriceBar num). b.ts) valid) (IsDistinct-sort valid h.distinct),
        omega (arith, h.counted, length-sort valid),
        omega (arith, h.counted, length-sort valid),
      )
