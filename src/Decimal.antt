-- ===== src/Decimal.antt =====
-- Python's `decimal.Decimal` under the default context: 28 significant digits, ROUND_HALF_EVEN.
-- A value is a signed coefficient over a power of ten; its exponent is not kept, since the program
-- compares values only. Finite values: exponent limits, NaN and the traps are left out, and a
-- division by zero, which raises, gives zero here; the program divides by positive values. Where a
-- result of `quantize` has more than 28 digits, the program raises; `quantize_fits` says when, and
-- `quantize` is the program's only where it holds.
mod Int
mod Rounding
pub mod Order
unfoldable pub use Int.*
unfoldable pub use Rounding.*
use a_share_limit_pullback.Base.{
  ℕ, ◌+◌, ◌-◌, ◌*◌, ◌^◌, Bool, not, List, [], ◌∷◌, if◌then◌else◌, leb, ltb, length,
}

pub record Decimal : Type 0 where
  pub coefficient : ℤ
  pub scale : ℕ

-- `Decimal("1.25")` is `decimal 125 2`.
abbrev pub decimal : ℕ → ℕ → Decimal
decimal n s = record { coefficient = pos n; scale = s }

abbrev pub nought : Decimal
nought = decimal 0 0

abbrev pub one : Decimal
one = decimal 1 0

-- the coefficient at a larger scale
abbrev pub at_scale : ℕ → Decimal → ℤ
at_scale s a = scale_by (10 ^ (s - a.scale)) a.coefficient

-- `a <= b`, exactly, whatever the number of digits
infix 50 ◌≤𝔻◌ ◌<𝔻◌ ◌=𝔻◌
unfoldable pub ◌≤𝔻◌ : Decimal → Decimal → Bool
a ≤𝔻 b = leb_ℤ (scale_by (10 ^ b.scale) a.coefficient) (scale_by (10 ^ a.scale) b.coefficient)

abbrev pub ◌<𝔻◌ : Decimal → Decimal → Bool
a <𝔻 b = not (b ≤𝔻 a)

abbrev pub ◌=𝔻◌ : Decimal → Decimal → Bool
a =𝔻 b = if a ≤𝔻 b then b ≤𝔻 a else Bool.false

abbrev pub minimum : Decimal → Decimal → Decimal
minimum a b = if a ≤𝔻 b then a else b

abbrev pub maximum : Decimal → Decimal → Decimal
maximum a b = if a ≤𝔻 b then b else a

-- the result of an operation, rounded to the precision
abbrev of_ratio : Bool → ℕ × ℕ → Decimal
of_ratio negative (n, s) = record { coefficient = with_sign negative n; scale = s }

unfoldable pub fit : Decimal → Decimal
unfolding fit_precision
fit a = of_ratio (is_negative a.coefficient) (fit_precision (magnitude a.coefficient) a.scale)

infixl 65 ◌+𝔻◌ ◌-𝔻◌
infixl 70 ◌*𝔻◌ ◌/𝔻◌
unfoldable pub ◌+𝔻◌ : Decimal → Decimal → Decimal
unfolding fit ◌+ℤ◌
a +𝔻 b =
    let s = larger a.scale b.scale in
    fit (record { coefficient = at_scale s a +ℤ at_scale s b; scale = s })

unfoldable pub ◌-𝔻◌ : Decimal → Decimal → Decimal
unfolding fit ◌-ℤ◌
a -𝔻 b =
    let s = larger a.scale b.scale in
    fit (record { coefficient = at_scale s a -ℤ at_scale s b; scale = s })

unfoldable pub ◌*𝔻◌ : Decimal → Decimal → Decimal
unfolding fit ◌*ℤ◌
a *𝔻 b = fit (record { coefficient = a.coefficient *ℤ b.coefficient; scale = a.scale + b.scale })

unfoldable pub ◌/𝔻◌ : Decimal → Decimal → Decimal
unfolding divide_precision
a /𝔻 b = of_ratio (opposite_signs a.coefficient b.coefficient) (
    divide_precision (magnitude a.coefficient * 10 ^ b.scale)
      (magnitude b.coefficient * 10 ^ a.scale))

-- `abs` (which rounds too)
unfoldable pub absolute : Decimal → Decimal
unfolding fit
absolute a = fit (record a { coefficient = pos (magnitude a.coefficient) })

-- whether `a.quantize(q, rounding=ROUND_HALF_UP)` for a `q` with `places` decimal places has a result of
-- at most 28 digits: `InvalidOperation` is raised otherwise
unfoldable pub quantize_fits : Decimal → ℕ → Bool
unfolding round_half_up
quantize_fits a places =
    ltb (round_half_up (magnitude a.coefficient * 10 ^ places) (10 ^ a.scale)) (10 ^ precision)

-- the result of `a.quantize(q, rounding=ROUND_HALF_UP)`, where it fits
unfoldable pub quantize : Decimal → ℕ → Decimal
unfolding round_half_up
quantize a places = record {
  coefficient =
      with_sign (is_negative a.coefficient)
        (round_half_up (magnitude a.coefficient * 10 ^ places) (10 ^ a.scale));
  scale = places;
}

abbrev pub of_count : ℕ → Decimal
of_count n = decimal n 0

-- `sum(values, Decimal("0"))`
unfoldable pub sum_from : Decimal → List Decimal → Decimal
sum_from acc [] = acc
sum_from acc (x ∷ xs) = sum_from (acc +𝔻 x) xs

abbrev pub sum : List Decimal → Decimal
sum xs = sum_from nought xs

-- `min(values)` and `max(values)` of a sequence with the first value `x`
unfoldable pub minimum_of : Decimal → List Decimal → Decimal
minimum_of x [] = x
minimum_of x (y ∷ ys) = minimum_of (minimum x y) ys

unfoldable pub maximum_of : Decimal → List Decimal → Decimal
maximum_of x [] = x
maximum_of x (y ∷ ys) = maximum_of (maximum x y) ys

-- `sum(values, ZERO) / Decimal(len(values))`
unfoldable pub mean : List Decimal → Decimal
unfolding sum_from
mean xs = sum xs /𝔻 of_count (length xs)
