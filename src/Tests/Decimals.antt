-- ===== src/Tests/Decimals.antt =====
-- Decimals and dates against CPython's results.
use a_share_limit_pullback.Base.{◌≡◌, refl, true}
use a_share_limit_pullback.Decimal.{decimal, ◌/𝔻◌, ◌*𝔻◌, ◌+𝔻◌, ◌-𝔻◌, ◌=𝔻◌, ◌≤𝔻◌, quantize}
use a_share_limit_pullback.Dates.{isoformat, compact}

third : decimal 1 0 /𝔻 decimal 3 0 ≡ decimal 3333333333333333333333333333 28
unfolding ◌/𝔻◌
third = refl

two_thirds : decimal 2 0 /𝔻 decimal 3 0 ≡ decimal 6666666666666666666666666667 28
unfolding ◌/𝔻◌
two_thirds = refl

long_product :
    decimal 12345678901234567890123456789 9 *𝔻 decimal 11 1 ≡ decimal 1358024679135802467913580247 8
unfolding ◌*𝔻◌
long_product = refl

below_zero : (decimal 1 0 -𝔻 decimal 15 1) +𝔻 decimal 5 1 =𝔻 decimal 0 0 ≡ true
unfolding ◌-𝔻◌ ◌+𝔻◌ ◌≤𝔻◌
below_zero = refl

half_up : quantize (decimal 11055 3) 2 ≡ decimal 1106 2
unfolding quantize
half_up = refl

a_day : isoformat 739834 ≡ "2026-08-06"
unfolding isoformat
a_day = refl

leap_day : compact 738945 ≡ "20240229"
unfolding compact
leap_day = refl

year_end : isoformat 730485 ≡ "2000-12-31"
unfolding isoformat
year_end = refl
