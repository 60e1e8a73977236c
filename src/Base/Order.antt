-- ===== src/Base/Order.antt =====
-- Lists in the order of a numeric key, and a stable insertion sort for Python's `sorted`.
use Prim.Native.Nat.{ℕ, ◌≤◌, ◌<◌}
use mathlib.Core.Path.{◌≡◌, refl, sym}
use mathlib.Core.List.{List, [], ◌∷◌}
use native.Mathlib.Omega.{arith}
use trading_brain.Base.Tests.{leb, if◌then◌else◌, leb→le, leb-eq-false, Bool-cases, if_ind}
use mathlib.Core.Logic.{◌≢◌, inl, inr}
use trading_brain.Base.Lists.{All, All-map, keep}

module _ {ℓ} {A : Type ℓ} (key : A → ℕ) where
  -- Each key is at most the later ones.
  abbrev pub IsSorted : List A → Type 0
  IsSorted [] = Unit
  IsSorted (x ∷ xs) = All (λ y. key x ≤ key y) xs × IsSorted xs

  -- Before the elements with a larger or equal key: `sort` inserts from the back, so that equal keys
  -- keep their order.
  abbrev pub insert_sorted : A → List A → List A
  insert_sorted x [] = x ∷ []
  insert_sorted x (y ∷ ys) = if leb (key x) (key y) then x ∷ y ∷ ys else y ∷ insert_sorted x ys

  abbrev pub sort : List A → List A
  sort [] = []
  sort (x ∷ xs) = insert_sorted x (sort xs)

  pub insert_sorted-All {κ} :
      (P : A → Type κ) (x : A) (ys : List A) → P x → All P ys → All P (insert_sorted x ys)
  insert_sorted-All P x [] h k = (h, k)
  insert_sorted-All P x (y ∷ ys) h k =
      if_ind (All P) (leb (key x) (key y)) (λ _. (h, k))
        (λ _. (k.0, insert_sorted-All P x ys h k.1))

  pub sort-All {κ} : (P : A → Type κ) (xs : List A) → All P xs → All P (sort xs)
  sort-All P [] h = tt
  sort-All P (x ∷ xs) h = insert_sorted-All P x (sort xs) h.0 (sort-All P xs h.1)

  insert_sorted-IsSorted : (x : A) (ys : List A) → IsSorted ys → IsSorted (insert_sorted x ys)
  insert_sorted-IsSorted x [] h = (tt, tt)
  insert_sorted-IsSorted x (y ∷ ys) h =
      if_ind IsSorted (leb (key x) (key y))
        (λ le.
          let below : key x ≤ key y = leb→le (key x) (key y) le in
          (
            (
              below,
              All-map (λ z. key y ≤ key z) (λ z. key x ≤ key z) ys (λ z k. omega (arith, below, k))
                  h.0,
            ),
            h,
          ))
        (λ gt. (
          insert_sorted-All (λ z. key y ≤ key z) x ys
              (omega (arith, leb-eq-false (key x) (key y) gt)) h.0,
          insert_sorted-IsSorted x ys h.1,
        ))

  pub sort-IsSorted : (xs : List A) → IsSorted (sort xs)
  sort-IsSorted [] = tt
  sort-IsSorted (x ∷ xs) = insert_sorted-IsSorted x (sort xs) (sort-IsSorted xs)

  -- The elements up to a bound.
  abbrev pub up_to : ℕ → List A → List A
  up_to t = keep (λ x. leb (key x) t)

  up_to-none : (t : ℕ) (ys : List A) → All (λ y. t < key y) ys → up_to t ys ≡ []
  up_to-none t [] h = refl
  up_to-none t (y ∷ ys) h = ground (arith, up_to-none t ys h.1, h.0)

  up_to-insert_sorted :
      (t : ℕ) (x : A) (ys : List A)
      → IsSorted ys
      → up_to t (insert_sorted x ys)
        ≡ (if leb (key x) t then insert_sorted x (up_to t ys) else up_to t ys)
  up_to-insert_sorted t x [] h = ground arith
  up_to-insert_sorted t x (y ∷ ys) h = elim (Bool-cases (leb (key y) t)) [
    | inl below ↦ ground (arith, below, up_to-insert_sorted t x ys h.1)
    | inr above ↦ ground (
      arith,
      above,
      up_to-insert_sorted t x ys h.1,
      up_to-none t ys (
          All-map (λ z. key y ≤ key z) (λ z. t < key z) ys
            (λ z k. omega (arith, leb-eq-false (key y) t above, k)) h.0),
    )
  ]

  -- To sort and then cut off is to cut off and then sort.
  pub up_to-sort : (t : ℕ) (xs : List A) → up_to t (sort xs) ≡ sort (up_to t xs)
  up_to-sort t [] = refl
  up_to-sort t (x ∷ xs) =
      ground (arith, up_to-insert_sorted t x (sort xs) (sort-IsSorted xs), up_to-sort t xs)

  -- No key occurs twice; and each key is below the later ones.
  abbrev pub IsDistinct : List A → Type 0
  IsDistinct [] = Unit
  IsDistinct (x ∷ xs) = All (λ y. key x ≢ key y) xs × IsDistinct xs

  abbrev pub IsIncreasing : List A → Type 0
  IsIncreasing [] = Unit
  IsIncreasing (x ∷ xs) = All (λ y. key x < key y) xs × IsIncreasing xs

  insert_sorted-IsDistinct :
      (x : A) (ys : List A)
      → All (λ y. key x ≢ key y) ys
      → IsDistinct ys
      → IsDistinct (insert_sorted x ys)
  insert_sorted-IsDistinct x [] new h = (tt, tt)
  insert_sorted-IsDistinct x (y ∷ ys) new h =
      if_ind IsDistinct (leb (key x) (key y)) (λ _. (new, h))
        (λ _. (
          insert_sorted-All (λ z. key y ≢ key z) x ys (λ e. new.0 (sym e)) h.0,
          insert_sorted-IsDistinct x ys new.1 h.1,
        ))

  pub sort-IsDistinct : (xs : List A) → IsDistinct xs → IsDistinct (sort xs)
  sort-IsDistinct [] h = tt
  sort-IsDistinct (x ∷ xs) h =
      insert_sorted-IsDistinct x (sort xs) (sort-All (λ z. key x ≢ key z) xs h.0)
        (sort-IsDistinct xs h.1)

  lt-All :
      (x : A) (ys : List A)
      → All (λ y. key x ≤ key y) ys
      → All (λ y. key x ≢ key y) ys
      → All (λ y. key x < key y) ys
  lt-All x [] h k = tt
  lt-All x (y ∷ ys) h k = (ground (arith, h.0, k.0), lt-All x ys h.1 k.1)

  pub IsSorted-IsIncreasing : (xs : List A) → IsSorted xs → IsDistinct xs → IsIncreasing xs
  IsSorted-IsIncreasing [] h k = tt
  IsSorted-IsIncreasing (x ∷ xs) h k = (lt-All x xs h.0 k.0, IsSorted-IsIncreasing xs h.1 k.1)
