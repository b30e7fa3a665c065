-- ===== src/Number.antt =====
-- The numbers of the source that are no counts: IEEE doubles, of which the code compares values
-- only. Every finite double is a whole multiple of 2 ^ -1074, so a finite value is an integer here
-- and its comparisons are exact; the two zeros are one value, as they are for `<` and `===`.
use ai_support_agent_builder.Prelude.{
  ℕ, suc, ◌+◌, ◌*◌, ◌^◌, ◌≡◌, refl, Bool, true, false, arith, ltb, inl, inr, Bool-cases,
}

-- `negsuc n` is -(n + 1).
pub data ℤ : Type 0 where
  pos : ℕ → ℤ
  negsuc : ℕ → ℤ

abbrev pub pos_part : ℤ → ℕ
pos_part (pos n) = n
pos_part (negsuc n) = 0

abbrev pub neg_part : ℤ → ℕ
neg_part (pos n) = 0
neg_part (negsuc n) = suc n

abbrev pub ltb_ℤ : ℤ → ℤ → Bool
ltb_ℤ a b = ltb (pos_part a + neg_part b) (pos_part b + neg_part a)

pub data Double : Type 0 where
  nan : Double
  minus_infinity : Double
  finite : ℤ → Double
  plus_infinity : Double

-- How many steps of 2 ^ -1074 make 1, and a whole number as a double.
unfoldable pub unit : ℕ
unit = 2 ^ 1074

unfoldable pub whole : ℕ → Double
unfolding unit
whole n = finite (pos (n * unit))

-- `Number.isFinite(x)`
unfoldable pub is_finite : Double → Bool
is_finite (finite x) = true
is_finite nan = false
is_finite minus_infinity = false
is_finite plus_infinity = false

-- `x < y`
unfoldable pub lt_double : Double → Double → Bool
lt_double nan y = false
lt_double minus_infinity nan = false
lt_double minus_infinity minus_infinity = false
lt_double minus_infinity (finite y) = true
lt_double minus_infinity plus_infinity = true
lt_double (finite x) nan = false
lt_double (finite x) minus_infinity = false
lt_double (finite x) (finite y) = ltb_ℤ x y
lt_double (finite x) plus_infinity = true
lt_double plus_infinity y = false

-- The sign of a comparator's result: negative, 0 (or NaN, which is as false), or positive.
pub data Sign : Type 0 where
  negative zero_or_nan positive : Sign

-- The sign of a difference, from whether it is below and whether it is above zero.
abbrev pub sign_of : Bool → Bool → Sign
sign_of true above = negative
sign_of false true = positive
sign_of false false = zero_or_nan

-- The sign of `x - y`. Subtraction of doubles rounds, but it is 0 only for equal values and has
-- the sign of the exact difference; of equal infinities, and with NaN, it is NaN.
unfoldable pub sub_sign : Double → Double → Sign
unfolding lt_double
sub_sign x y = sign_of (lt_double x y) (lt_double y x)

-- The sign of `m - n` for counts.
unfoldable pub sub_sign_ℕ : ℕ → ℕ → Sign
sub_sign_ℕ m n = sign_of (ltb m n) (ltb n m)

-- `a || b` for comparator results.
abbrev pub or_else : Sign → Sign → Sign
or_else zero_or_nan t = t
or_else negative t = negative
or_else positive t = positive

abbrev pub flip : Sign → Sign
flip negative = positive
flip zero_or_nan = zero_or_nan
flip positive = negative

lt_double-asym : (x y : Double) → lt_double x y ≡ true → lt_double y x ≡ false
unfolding lt_double
lt_double-asym nan y h = cc
lt_double-asym minus_infinity nan h = refl
lt_double-asym minus_infinity minus_infinity h = refl
lt_double-asym minus_infinity (finite y) h = refl
lt_double-asym minus_infinity plus_infinity h = refl
lt_double-asym (finite x) nan h = refl
lt_double-asym (finite x) minus_infinity h = cc
lt_double-asym (finite x) (finite y) h = ground arith
lt_double-asym (finite x) plus_infinity h = refl
lt_double-asym plus_infinity y h = cc

sign_of-flip : (a b : Bool) → (a ≡ true → b ≡ false) → sign_of b a ≡ flip (sign_of a b)
sign_of-flip true true h = elim (Bool-cases false) [ inl e ↦ cc | inr e ↦ let f = h refl in cc ]
sign_of-flip true false h = refl
sign_of-flip false true h = refl
sign_of-flip false false h = refl

pub sub_sign-flip : (x y : Double) → sub_sign y x ≡ flip (sub_sign x y)
unfolding sub_sign
sub_sign-flip x y = sign_of-flip (lt_double x y) (lt_double y x) (lt_double-asym x y)

pub sub_sign_ℕ-flip : (x y : ℕ) → sub_sign_ℕ y x ≡ flip (sub_sign_ℕ x y)
unfolding sub_sign_ℕ
sub_sign_ℕ-flip x y = sign_of-flip (ltb x y) (ltb y x) (λ h. ground arith)

pub or_else-flip : (a b c d : Sign) → a ≡ flip b → c ≡ flip d → or_else a c ≡ flip (or_else b d)
or_else-flip a negative c d e f = rw e refl
or_else-flip a zero_or_nan c d e f = rw (e, f) refl
or_else-flip a positive c d e f = rw e refl
