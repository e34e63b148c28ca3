-- ===== src/Decimal/Order.antt =====
-- The order of decimals.
use a_share_limit_pullback.Base.{
  ℕ, zero, suc, ◌+◌, ◌*◌, true, false, ◌^◌, ◌≤◌, ◌≡◌, refl, arith, leb→le, le→leb,
}
use native.Mathlib.Nat.{mul-le-mul_left, le_of_mul-le-mul_left}
use a_share_limit_pullback.Decimal.{
  Decimal, minimum, maximum, ◌<𝔻◌, ◌≤𝔻◌, ◌=𝔻◌, leb_ℤ, ℤ, pos, negsuc, scale_by, pos_part, neg_part,
}

leb_ℤ-refl : (x : ℤ) → leb_ℤ x x ≡ true
leb_ℤ-refl (pos n) = ground arith
leb_ℤ-refl (negsuc n) = ground arith

pub ≤𝔻-refl : (d : Decimal) → (d ≤𝔻 d) ≡ true
unfolding ◌≤𝔻◌
≤𝔻-refl d = leb_ℤ-refl (scale_by (10 ^ d.scale) d.coefficient)

pub =𝔻-refl : (d : Decimal) → (d =𝔻 d) ≡ true
=𝔻-refl d = rw (≤𝔻-refl d) refl

scale_by-parts :
    (k : ℕ) (x : ℤ)
    → (pos_part (scale_by k x) ≡ k * pos_part x) × (neg_part (scale_by k x) ≡ k * neg_part x)
scale_by-parts k (pos n) = ground arith
scale_by-parts k (negsuc n) = ground arith

power_positive : (s : ℕ) → 1 ≤ 10 ^ s
power_positive zero = omega arith
power_positive (suc s) = omega (arith, power_positive s)

cross_trans :
    (ka kb kc pa na pb nb pc nc : ℕ)
    → 1 ≤ kb
    → kb * pa + ka * nb ≤ ka * pb + kb * na
    → kc * pb + kb * nc ≤ kb * pc + kc * nb
    → kc * pa + ka * nc ≤ ka * pc + kc * na
cross_trans ka kb kc pa na pb nb pc nc p h k =
    le_of_mul-le-mul_left {k = kb} (omega (arith, mul-le-mul_left kc h, mul-le-mul_left ka k)) p

-- what a comparison says of the parts of the two coefficients
Below : Decimal → Decimal → Type 0
Below a b =
    10 ^ b.scale * pos_part a.coefficient + 10 ^ a.scale * neg_part b.coefficient
    ≤ 10 ^ a.scale * pos_part b.coefficient + 10 ^ b.scale * neg_part a.coefficient

≤𝔻→Below : (a b : Decimal) → (a ≤𝔻 b) ≡ true → Below a b
unfolding ◌≤𝔻◌ Below
≤𝔻→Below a b h = omega (
  arith,
  leb→le _ _ h,
  scale_by-parts (10 ^ b.scale) a.coefficient,
  scale_by-parts (10 ^ a.scale) b.coefficient,
)

Below→≤𝔻 : (a b : Decimal) → Below a b → (a ≤𝔻 b) ≡ true
unfolding ◌≤𝔻◌ Below
Below→≤𝔻 a b h = le→leb _ _ (
    omega (
      arith,
      scale_by-parts (10 ^ b.scale) a.coefficient,
      scale_by-parts (10 ^ a.scale) b.coefficient,
    ))

pub ≤𝔻_trans : (a b c : Decimal) → (a ≤𝔻 b) ≡ true → (b ≤𝔻 c) ≡ true → (a ≤𝔻 c) ≡ true
unfolding Below
≤𝔻_trans a b c h k = Below→≤𝔻 a c (
    cross_trans (10 ^ a.scale) (10 ^ b.scale) (10 ^ c.scale) (pos_part a.coefficient)
      (neg_part a.coefficient) (pos_part b.coefficient) (neg_part b.coefficient)
      (pos_part c.coefficient) (neg_part c.coefficient) (power_positive b.scale) (≤𝔻→Below a b h)
      (≤𝔻→Below b c k))

pub ≤𝔻_total : (a b : Decimal) → (a ≤𝔻 b) ≡ false → (b ≤𝔻 a) ≡ true
unfolding ◌≤𝔻◌
≤𝔻_total a b h = ground arith

pub minimum-le_left : (a b : Decimal) → (minimum a b ≤𝔻 a) ≡ true
minimum-le_left a b = ground (arith, ≤𝔻-refl a, ≤𝔻_total a b)

pub minimum-le_right : (a b : Decimal) → (minimum a b ≤𝔻 b) ≡ true
minimum-le_right a b = ground (arith, ≤𝔻-refl b)

pub le-maximum_left : (a b : Decimal) → (a ≤𝔻 maximum a b) ≡ true
le-maximum_left a b = ground (arith, ≤𝔻-refl a)

pub le-maximum_right : (a b : Decimal) → (b ≤𝔻 maximum a b) ≡ true
le-maximum_right a b = ground (arith, ≤𝔻-refl b, ≤𝔻_total a b)

-- the two orders compose
pub lt_of_lt_of_le : (a b c : Decimal) → (a <𝔻 b) ≡ true → (b ≤𝔻 c) ≡ true → (a <𝔻 c) ≡ true
lt_of_lt_of_le a b c h k = ground (arith, ≤𝔻_trans b c a k)
