-- ===== src/Quant/Whole.antt =====
-- Whole numbers in the place of floats: an instance on which the code can be run by hand.
use trading_brain.Base.{
  ℕ, ◌+◌, ◌-◌, ◌*◌, ◌/◌, refl, arith, Bool, true, false, ltb, ◌==◌, if◌then◌else◌, ℤ, is_negative,
}
use trading_brain.Quant.Floats.{Floats, IsRounding}

-- `a - b`
abbrev pub diff : ℕ → ℕ → ℤ
diff a b = if ltb a b then ℤ.negsuc (b - a - 1) else ℤ.pos (a - b)

infixl 65 ◌+ℤ◌
abbrev pub ◌+ℤ◌ : ℤ → ℤ → ℤ
ℤ.pos a +ℤ ℤ.pos b = ℤ.pos (a + b)
ℤ.pos a +ℤ ℤ.negsuc b = diff a (b + 1)
ℤ.negsuc a +ℤ ℤ.pos b = diff b (a + 1)
ℤ.negsuc a +ℤ ℤ.negsuc b = ℤ.negsuc (a + b + 1)

abbrev pub negate : ℤ → ℤ
negate (ℤ.pos a) = diff 0 a
negate (ℤ.negsuc a) = ℤ.pos (a + 1)

abbrev pub magnitude : ℤ → ℕ
magnitude (ℤ.pos a) = a
magnitude (ℤ.negsuc a) = a + 1

abbrev pub signed : Bool → ℕ → ℤ
signed true n = diff 0 n
signed false n = ℤ.pos n

abbrev unequal : Bool → Bool → Bool
unequal true true = false
unequal false false = false
unequal _ _ = true

abbrev pub times : ℤ → ℤ → ℤ
times a b = signed (unequal (is_negative a) (is_negative b)) (magnitude a * magnitude b)

-- Towards 0, and 0 for a quotient by 0.
abbrev pub quotient : ℤ → ℤ → ℤ
quotient a b =
    signed (unequal (is_negative a) (is_negative b))
      (if magnitude b == 0 then 0 else magnitude a / magnitude b)

abbrev pub lt_ℤ : ℤ → ℤ → Bool
lt_ℤ (ℤ.pos a) (ℤ.pos b) = ltb a b
lt_ℤ (ℤ.pos a) (ℤ.negsuc b) = false
lt_ℤ (ℤ.negsuc a) (ℤ.pos b) = true
lt_ℤ (ℤ.negsuc a) (ℤ.negsuc b) = ltb b a

abbrev pub eq_ℤ : ℤ → ℤ → Bool
eq_ℤ (ℤ.pos a) (ℤ.pos b) = a == b
eq_ℤ (ℤ.negsuc a) (ℤ.negsuc b) = a == b
eq_ℤ _ _ = false

abbrev pub le_ℤ : ℤ → ℤ → Bool
le_ℤ a b = if lt_ℤ a b then true else eq_ℤ a b

abbrev pub whole_numbers : Floats
whole_numbers = record {
  F = ℤ;
  whole = ℤ.pos;
  tiny = ℤ.pos 1;
  add = ◌+ℤ◌;
  sub = λ a b. a +ℤ negate b;
  mul = times;
  div = quotient;
  neg = negate;
  abs = λ a. ℤ.pos (magnitude a);
  round6 = λ a. a;
  lt = lt_ℤ;
  le = le_ℤ;
  eq = eq_ℤ;
  is_missing = λ a. false;
}

pub whole_numbers-IsRounding : IsRounding whole_numbers
whole_numbers-IsRounding = record {
  round-lt_zero = λ x h. h;
  sub-lt_zero = λ a b h. ground (arith, h);
  add-lt_zero = λ a b h k. ground (arith, h, k);
  le-lt_zero = λ x h. ground (arith, h);
  zero-lt_zero = refl;
}
