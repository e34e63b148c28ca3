-- ===== src/Dates.antt =====
-- `datetime.date` as its proleptic Gregorian ordinal (`date.toordinal`), so that dates compare as
-- numbers and a day later is the next number, and the texts that the program makes of numbers and
-- dates: `str`, `isoformat` and `%Y%m%d`, for years from 1000 on.
use a_share_limit_pullback.Base.{
  ℕ, zero, suc, ◌+◌, ◌-◌, ◌*◌, ◌/◌, ◌%◌, String, ◌<>◌, if◌then◌else◌, leb, ltb,
}

abbrev pub Date : Type 0
Date = ℕ

-- `datetime.time` as seconds after midnight
abbrev pub Time : Type 0
Time = ℕ

abbrev digit : ℕ → String
digit zero = "0"
digit (suc zero) = "1"
digit (suc (suc zero)) = "2"
digit (suc (suc (suc zero))) = "3"
digit (suc (suc (suc (suc zero)))) = "4"
digit (suc (suc (suc (suc (suc zero))))) = "5"
digit (suc (suc (suc (suc (suc (suc zero)))))) = "6"
digit (suc (suc (suc (suc (suc (suc (suc zero))))))) = "7"
digit (suc (suc (suc (suc (suc (suc (suc (suc zero)))))))) = "8"
digit _ = "9"

show_from : ℕ → ℕ → String
show_from zero n = ""
show_from (suc fuel) n =
    let rest = show_from fuel (n / 10) in if ltb n 10 then digit n else rest <> digit (n % 10)

-- `str(n)`
unfoldable pub show : ℕ → String
unfolding show_from
show n = show_from (suc n) n

abbrev two_digits : ℕ → String
two_digits n = digit (n / 10) <> digit (n % 10)

-- days since 1 March of the year 0
abbrev march_days : Date → ℕ
march_days d = d + 305

abbrev year_of_era : ℕ → ℕ
year_of_era day = (day + day / 36524 - day / 1460 - day / 146096) / 365

abbrev day_of_year : ℕ → ℕ
day_of_year day = let y = year_of_era day in day + y / 100 - 365 * y - y / 4

abbrev shifted_month : ℕ → ℕ
shifted_month day = (5 * day_of_year day + 2) / 153

unfoldable pub month : Date → ℕ
month d = let m = shifted_month (march_days d % 146097) in if ltb m 10 then m + 3 else m - 9

unfoldable pub year : Date → ℕ
unfolding month
year d =
    let z = march_days d in
    let y = year_of_era (z % 146097) + 400 * (z / 146097) in if leb (month d) 2 then y + 1 else y

unfoldable pub day : Date → ℕ
day d = let e = march_days d % 146097 in day_of_year e + 1 - (153 * shifted_month e + 2) / 5

unfoldable pub isoformat : Date → String
unfolding show year month day
isoformat d = show (year d) <> "-" <> two_digits (month d) <> "-" <> two_digits (day d)

-- `f"{d:%Y%m%d}"`
unfoldable pub compact : Date → String
unfolding show year month day
compact d = show (year d) <> two_digits (month d) <> two_digits (day d)
