-- ===== src/Decimal/Rounding.antt =====
-- Rounding of a quotient of naturals, and to 28 significant digits.
use a_share_limit_pullback.Base.{
  ℕ, zero, suc, ◌+◌, ◌-◌, ◌*◌, ◌/◌, ◌%◌, ◌^◌, if◌then◌else◌, leb, ltb, ◌==◌,
}

-- ROUND_HALF_UP of `n / d`
unfoldable pub round_half_up : ℕ → ℕ → ℕ
round_half_up n d = if leb d (2 * (n % d)) then n / d + 1 else n / d

-- ROUND_HALF_EVEN of `n / d`
unfoldable pub round_half_even : ℕ → ℕ → ℕ
round_half_even n d =
    let twice = 2 * (n % d) in
    if ltb twice d
    then n / d
    else if ltb d twice
    then n / d + 1
    else if n / d % 2 == 0
    then n / d
    else n / d + 1

abbrev pub precision : ℕ
precision = 28

-- how many digits `n` has beyond the precision; the fuel `n` is more than its number of digits
unfoldable pub excess_digits : ℕ → ℕ → ℕ
excess_digits zero n = 0
excess_digits (suc fuel) n =
    let rest = excess_digits fuel (n / 10) in if ltb n (10 ^ precision) then 0 else rest + 1

-- `n * 10^-s` with `x` more digits dropped: a positive exponent is multiplied out
abbrev rescale : ℕ → ℕ → ℕ → ℕ × ℕ
rescale n s x = if leb x s then (n, s - x) else (n * 10 ^ (x - s), 0)

unfoldable pub fit_precision : ℕ → ℕ → ℕ × ℕ
unfolding excess_digits round_half_even
fit_precision n s = let x = excess_digits n n in rescale (round_half_even n (10 ^ x)) s x

-- how many decimal digits `n` has
unfoldable pub digit_count : ℕ → ℕ → ℕ
digit_count zero n = 0
digit_count (suc fuel) n = let rest = digit_count fuel (n / 10) in if ltb n 10 then 1 else rest + 1

-- `n / d` to the precision: enough digits behind the point, then one rounding
unfoldable pub divide_precision : ℕ → ℕ → ℕ × ℕ
unfolding excess_digits round_half_even digit_count
divide_precision n d =
    let k = precision + digit_count d d in
    let q = n * 10 ^ k / d in
    let x = excess_digits q q in rescale (round_half_even (n * 10 ^ k) (d * 10 ^ x)) k x
