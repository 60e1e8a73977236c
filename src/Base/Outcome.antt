-- ===== src/Base/Outcome.antt =====
-- A call that returns a value or raises.
use mathlib.Core.Path.{◌≡◌, refl}
use mathlib.Core.Bool.{Bool, true, false}

pub data Result {ℓ κ} (E : Type ℓ) (A : Type κ) : Type (ℓ ⊔ κ) where
  ok : A → Result E A
  err : E → Result E A

infixl 5 ◌>>=◌ ◌>>◌
abbrev pub ◌>>=◌ {ℓ κ μ} :
    {E : Type ℓ} {A : Type κ} {B : Type μ} → Result E A → (A → Result E B) → Result E B
ok a >>= f = f a
err e >>= f = err e

abbrev pub ◌>>◌ {ℓ κ} : {E : Type ℓ} {B : Type κ} → Result E (Unit {0}) → Result E B → Result E B
m >> k = m >>= λ _. k

-- `if test: raise e`
abbrev pub raise_if {ℓ} : {E : Type ℓ} → Bool → E → Result E (Unit {0})
raise_if true e = err e
raise_if false e = ok tt

-- A sequence that returns has returned at both steps.
pub >>=-eq-ok {ℓ κ μ} :
    {E : Type ℓ} {A : Type κ} {B : Type μ} (step : Result E A) (next : A → Result E B) {last : B}
    → (step >>= next) ≡ ok last
    → (between : A) × (step ≡ ok between) × (next between ≡ ok last)
>>=-eq-ok (ok between) next returned = (between, refl, returned)
>>=-eq-ok (err e) next returned = cc

pub >>=-cong {ℓ κ μ} :
    {E : Type ℓ} {A : Type κ} {B : Type μ} (m : Result E A) (f g : A → Result E B)
    → ((a : A) → f a ≡ g a)
    → (m >>= f) ≡ (m >>= g)
>>=-cong (ok a) f g h = h a
>>=-cong (err e) f g h = refl

pub >>=_assoc {ℓ κ μ ν} :
    {E : Type ℓ} {A : Type κ} {B : Type μ} {C : Type ν} (m : Result E A) (f : A → Result E B)
    (g : B → Result E C)
    → ((m >>= f) >>= g) ≡ (m >>= λ a. f a >>= g)
>>=_assoc (ok a) f g = refl
>>=_assoc (err e) f g = refl
