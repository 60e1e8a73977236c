-- ===== src/Base/Tests.antt =====
-- Boolean tests on the native numbers, the conditional, and splits that keep the equation.
use Prim.Native.Nat.{ℕ, ◌≤◌, ◌<◌, compare, Ordering}
use mathlib.Core.Path.{◌≡◌, refl}
use mathlib.Core.Logic.{◌⊎◌, ◌↔◌, inl, inr}
use mathlib.Core.Bool.{Bool, true, false}
use mathlib.Core.Option.{Option, none, some}
use native.Mathlib.Omega.{arith}

abbrev pub ltb : ℕ → ℕ → Bool
ltb a b = elim (compare a b) [ Ordering.lt ↦ true | _ ↦ false ]

abbrev pub leb : ℕ → ℕ → Bool
leb a b = elim (compare a b) [ Ordering.gt ↦ false | _ ↦ true ]

infix 50 ◌==◌
abbrev pub ◌==◌ : ℕ → ℕ → Bool
a == b = elim (compare a b) [ Ordering.eq ↦ true | _ ↦ false ]

infix 1 if◌then◌else◌
abbrev pub if◌then◌else◌ {ℓ} : {A : Type ℓ} → Bool → A → A → A
if true then x else y = x
if false then x else y = y

pub leb→le : (a b : ℕ) → leb a b ≡ true → a ≤ b
leb→le a b h = ground arith

pub ltb→lt : (a b : ℕ) → ltb a b ≡ true → a < b
ltb→lt a b h = ground arith

pub ltb-eq-false : (a b : ℕ) → ltb a b ≡ false → b ≤ a
ltb-eq-false a b h = ground arith

pub leb-eq-false : (a b : ℕ) → leb a b ≡ false → b < a
leb-eq-false a b h = ground arith

pub ==_iff : (a b : ℕ) → ((a == b) ≡ true) ↔ (a ≡ b)
==_iff a b = ground arith

pub eq_refl : (a : ℕ) → (a == a) ≡ true
eq_refl a = ground arith

pub Bool-cases : (b : Bool) → (b ≡ true) ⊎ (b ≡ false)
Bool-cases true = inl refl
Bool-cases false = inr refl

pub Option-cases {ℓ} : {A : Type ℓ} (o : Option A) → (o ≡ none) ⊎ ((a : A) × (o ≡ some a))
Option-cases none = inl refl
Option-cases (some a) = inr (a, refl)

-- To prove something of a conditional, prove it of both branches.
pub if_ind {ℓ κ} :
    {A : Type ℓ} (P : A → Type κ) (b : Bool) {x y : A}
    → (b ≡ true → P x)
    → (b ≡ false → P y)
    → P (if b then x else y)
if_ind P true hx hy = hx refl
if_ind P false hx hy = hy refl

-- `if o is None: x else: f(o)`
abbrev pub when_some {ℓ κ} : {A : Type ℓ} {B : Type κ} → Option A → B → (A → B) → B
when_some none x f = x
when_some (some a) x f = f a

pub when_some_ind {ℓ κ μ} :
    {A : Type ℓ} {B : Type κ} (P : B → Type μ) (o : Option A) {x : B} {f : A → B}
    → (o ≡ none → P x)
    → ((a : A) → o ≡ some a → P (f a))
    → P (when_some o x f)
when_some_ind P none hx hf = hx refl
when_some_ind P (some a) hx hf = hf a refl
