-- ===== src/Base/Lists.antt =====
-- Lists counted by native numbers, filtered by Boolean tests, and dictionaries as lists of pairs.
use Prim.Native.Nat.{ℕ, zero, suc, ◌+◌, ◌-◌, ◌≤◌}
use mathlib.Core.Path.{◌≡◌, refl}
use mathlib.Core.Bool.{Bool, true, false, ◌||◌}
use mathlib.Core.Option.{Option, none, some}
use mathlib.Core.List.{List, [], ◌∷◌, ◌++◌}
use native.Mathlib.Omega.{arith}
use trading_brain.Base.Tests.{◌==◌, ltb, if◌then◌else◌, if_ind}

module _ {ℓ} {A : Type ℓ} where
  abbrev pub length : List A → ℕ
  length [] = 0
  length (x ∷ xs) = suc (length xs)

  -- `[x for x in xs if p(x)]`
  abbrev pub keep : (A → Bool) → List A → List A
  keep p [] = []
  keep p (x ∷ xs) = let rest = keep p xs in if p x then x ∷ rest else rest

  -- `any(p(x) for x in xs)`
  abbrev pub any : (A → Bool) → List A → Bool
  any p [] = false
  any p (x ∷ xs) = p x || any p xs

  -- `xs[0] if xs else None`, and `xs[-1] if xs else None`
  abbrev pub first : List A → Option A
  first [] = none
  first (x ∷ xs) = some x

  abbrev pub last_of : A → List A → A
  last_of x [] = x
  last_of x (y ∷ ys) = last_of y ys

  abbrev pub last : List A → Option A
  last [] = none
  last (x ∷ xs) = some (last_of x xs)

  abbrev pub drop : List A → ℕ → List A
  drop [] n = []
  drop (x ∷ xs) zero = x ∷ xs
  drop (x ∷ xs) (suc n) = drop xs n

  -- `xs[n]`, where there is one.
  abbrev pub get_elem? : List A → ℕ → Option A
  get_elem? [] n = none
  get_elem? (x ∷ xs) zero = some x
  get_elem? (x ∷ xs) (suc n) = get_elem? xs n

  -- `xs[:n]`
  abbrev pub take : List A → ℕ → List A
  take [] n = []
  take (x ∷ xs) zero = []
  take (x ∷ xs) (suc n) = x ∷ take xs n

  -- `xs[-n:]`, which is the whole list for 0.
  abbrev pub last_rows : ℕ → List A → List A
  last_rows n xs = if n == 0 then xs else drop xs (length xs - n)

  pub length-append : (xs ys : List A) → length (xs ++ ys) ≡ length xs + length ys
  length-append [] ys = omega arith
  length-append (x ∷ xs) ys = omega (arith, length-append xs ys)

  pub length-keep : (p : A → Bool) (xs : List A) → length (keep p xs) ≤ length xs
  length-keep p [] = omega arith
  length-keep p (x ∷ xs) = ground (arith, length-keep p xs)

  pub keep-append : (p : A → Bool) (xs ys : List A) → keep p (xs ++ ys) ≡ keep p xs ++ keep p ys
  keep-append p [] ys = refl
  keep-append p (x ∷ xs) ys = ground (arith, keep-append p xs ys)

-- Every element satisfies the predicate.
abbrev pub All {ℓ κ} : {A : Type ℓ} → (A → Type κ) → List A → Type κ
All P [] = Unit
All P (x ∷ xs) = P x × All P xs

pub All-append {ℓ κ} :
    {A : Type ℓ} (P : A → Type κ) (front back : List A)
    → All P front
    → All P back
    → All P (front ++ back)
All-append P [] back in_front in_back = in_back
All-append P (a ∷ front) back in_front in_back =
    (in_front.0, All-append P front back in_front.1 in_back)

pub All-drop {ℓ κ} :
    {A : Type ℓ} (P : A → Type κ) (xs : List A) (n : ℕ) → All P xs → All P (drop xs n)
All-drop P [] n h = tt
All-drop P (x ∷ xs) zero h = h
All-drop P (x ∷ xs) (suc n) h = All-drop P xs n h.1

pub All-last_rows {ℓ κ} :
    {A : Type ℓ} (P : A → Type κ) (n : ℕ) (xs : List A) → All P xs → All P (last_rows n xs)
All-last_rows P n xs h = if_ind (All P) (n == 0) (λ _. h) (λ _. All-drop P xs (length xs - n) h)

-- The elements that are kept pass the test, and have what all of them have.
pub All-keep {ℓ κ μ} :
    {A : Type ℓ} (P : A → Type κ) (Q : A → Type μ) (p : A → Bool) (xs : List A)
    → ((x : A) → p x ≡ true → P x → Q x)
    → All P xs
    → All Q (keep p xs)
All-keep P Q p [] f h = tt
All-keep P Q p (x ∷ xs) f h =
    if_ind (All Q) (p x) (λ e. (f x e h.0, All-keep P Q p xs f h.1)) (λ _. All-keep P Q p xs f h.1)

pub All-map {ℓ κ μ} :
    {A : Type ℓ} (P : A → Type κ) (Q : A → Type μ) (xs : List A)
    → ((x : A) → P x → Q x)
    → All P xs
    → All Q xs
All-map P Q [] f h = tt
All-map P Q (x ∷ xs) f h = (f x h.0, All-map P Q xs f h.1)

-- A dictionary with numbered keys, in insertion order.
abbrev pub Dict {ℓ} : Type ℓ → Type ℓ
Dict V = List (ℕ × V)

module _ {ℓ} {V : Type ℓ} where
  -- `d.get(k)`
  abbrev pub lookup : ℕ → Dict V → Option V
  lookup k [] = none
  lookup k ((j, v) ∷ d) = if k == j then some v else lookup k d

  -- `d[k] = v`
  abbrev pub insert : ℕ → V → Dict V → Dict V
  insert k v [] = (k, v) ∷ []
  insert k v ((j, w) ∷ d) = if k == j then (j, v) ∷ d else (j, w) ∷ insert k v d

  -- `d.pop(k, None)`
  abbrev pub erase : ℕ → Dict V → Dict V
  erase k [] = []
  erase k ((j, w) ∷ d) = let rest = erase k d in if k == j then rest else (j, w) ∷ rest

  pub lookup-insert :
      (k j : ℕ) (v : V) (d : Dict V)
      → lookup j (insert k v d) ≡ (if j == k then some v else lookup j d)
  lookup-insert k j v [] = ground arith
  lookup-insert k j v ((i, w) ∷ d) = ground (arith, lookup-insert k j v d)

  pub lookup-erase :
      (k j : ℕ) (d : Dict V) → lookup j (erase k d) ≡ (if j == k then none else lookup j d)
  lookup-erase k j [] = ground arith
  lookup-erase k j ((i, w) ∷ d) = ground (arith, lookup-erase k j d)

pub any-append {ℓ} :
    {A : Type ℓ} (p : A → Bool) (xs ys : List A) → any p (xs ++ ys) ≡ (any p xs || any p ys)
any-append p [] ys = refl
any-append p (x ∷ xs) ys = ground (arith, any-append p xs ys)

pub any-cong {ℓ} :
    {A : Type ℓ} (p q : A → Bool) (xs : List A) → ((x : A) → p x ≡ q x) → any p xs ≡ any q xs
any-cong p q [] h = refl
any-cong p q (x ∷ xs) h = ground (arith, h x, any-cong p q xs h)

-- `max(ts, default=None)`
abbrev pub latest_of : List ℕ → Option ℕ
latest_of [] = none
latest_of (t ∷ ts) = elim (latest_of ts) [
  | none ↦ some t
  | some u ↦ some (if ltb t u then u else t)
]
