-- ===== src/Base/Members.antt =====
-- Elements of lists, with their places.
use mathlib.Core.Path.{◌≡◌, refl, ap, sym, ◌∙◌}
use mathlib.Core.Logic.{◌⊎◌, inl, inr}
use mathlib.Core.Bool.{Bool, true}
use mathlib.Core.List.{List, [], ◌∷◌, ◌++◌, map}
use native.Mathlib.Omega.{arith}
use trading_brain.Base.Lists.{any}

-- An element of a list.
abbrev pub Has : {A : Type 0} → A → List A → Type 0
Has x [] = ⊥
Has x (y ∷ ys) = (x ≡ y) ⊎ Has x ys

pub Has-left : {A : Type 0} (x : A) (xs ys : List A) → Has x xs → Has x (xs ++ ys)
Has-left x [] ys h = absurd h
Has-left x (z ∷ xs) ys (inl e) = inl e
Has-left x (z ∷ xs) ys (inr h) = inr (Has-left x xs ys h)

pub Has-right : {A : Type 0} (x : A) (xs ys : List A) → Has x ys → Has x (xs ++ ys)
Has-right x [] ys h = h
Has-right x (z ∷ xs) ys h = inr (Has-right x xs ys h)

pub Has-map : {A B : Type 0} (f : A → B) (x : A) (xs : List A) → Has x xs → Has (f x) (map f xs)
Has-map f x [] h = absurd h
Has-map f x (z ∷ xs) (inl e) = inl (ap f e)
Has-map f x (z ∷ xs) (inr h) = inr (Has-map f x xs h)

pub any-Has :
    {A : Type 0} (p : A → Bool) (x : A) (xs : List A) → p x ≡ true → Has x xs → any p xs ≡ true
any-Has p x [] e h = absurd h
any-Has p x (z ∷ xs) e (inl same) = rw (ap p (sym same) ∙ e) refl
any-Has p x (z ∷ xs) e (inr h) = ground (arith, any-Has p x xs e h)
