-- ===== src/Features/Bars.antt =====
-- features/common/math.py, `_ordered_bars`, and the orderings of bars by date.
use a_share_limit_pullback.Base.{
  Bool, false, not, ◌||◌, Option, none, some, List, [], ◌∷◌, map, if◌then◌else◌, leb, ◌==◌, str_eq,
  is_empty, all, any, keep, sort_by, Outcome, ok, several_codes, duplicate_dates, raise_if, ◌>>◌,
}
use a_share_limit_pullback.Dates.{Date}
use a_share_limit_pullback.Models.Market.{DailyBar}

abbrev date_leb : DailyBar → DailyBar → Bool
date_leb a b = leb a.trade_date b.trade_date

-- `tuple(sorted(bars, key=lambda bar: bar.trade_date))`
unfoldable pub by_date : List DailyBar → List DailyBar
by_date = sort_by date_leb

abbrev pub until : Date → List DailyBar → List DailyBar
until as_of = keep (λ bar. leb bar.trade_date as_of)

-- `tuple(sorted((bar for bar in bars if bar.trade_date <= as_of), key=…))`
unfoldable pub bars_until : Date → List DailyBar → List DailyBar
bars_until as_of bars = by_date (until as_of bars)

-- `len({bar.code for bar in bars}) == 1`
unfoldable pub one_code : List DailyBar → Bool
one_code [] = false
one_code (b ∷ bs) = all (λ c. str_eq b.code c.code) bs

-- `len(set(dates)) != len(dates)`
unfoldable pub has_duplicates : List Date → Bool
has_duplicates [] = false
has_duplicates (d ∷ ds) = any (λ e. d == e) ds || has_duplicates ds

abbrev pub dates : List DailyBar → List Date
dates = map (λ b. b.trade_date)

abbrev selected : Option Date → List DailyBar → List DailyBar
selected none bars = bars
selected (some as_of) bars = until as_of bars

unfoldable pub ordered_bars : List DailyBar → Option Date → Outcome (List DailyBar)
ordered_bars bars as_of =
    let chosen = selected as_of bars in
    if is_empty chosen then ok [] else do
      raise_if (not (one_code chosen)) several_codes
      raise_if (has_duplicates (dates (by_date chosen))) duplicate_dates
      ok (by_date chosen)
