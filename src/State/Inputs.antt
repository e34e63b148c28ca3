-- ===== src/State/Inputs.antt =====
-- state/engine.py, the first part of `evaluate_strategy`: the bars until the day, the checks of the
-- arguments, and the indicators.
use a_share_limit_pullback.Base.{
  ℕ, not, Option, none, some, List, leb, ◌==◌, str_eq, keep, last?, Outcome, ok, raised, raise_if,
  or_raise, no_bar_on_as_of, several_codes, duplicate_dates, previous_other_code,
  previous_other_version, previous_not_before, end_index_missing, ◌>>=◌, ◌>>◌,
}
use a_share_limit_pullback.Dates.{Date}
use a_share_limit_pullback.Features.Bars.{bars_until, one_code, has_duplicates, dates}
use a_share_limit_pullback.Features.Indicators.{calculate_indicators, prefix_view}
use a_share_limit_pullback.Models.Config.{StrategyConfig}
use a_share_limit_pullback.Models.Market.{DailyBar, LimitUpRecord}
use a_share_limit_pullback.Models.Signal.{StrategySignal}
use a_share_limit_pullback.Models.Strategy.{IndicatorPoint}

-- the argument `bars`: a `SequencePrefixView`, by the bars that it shows, or another sequence
pub data BarSource : Type 0 where
  prefix : List DailyBar → BarSource
  sequence : List DailyBar → BarSource

unfoldable pub ordered_of : BarSource → Date → List DailyBar
ordered_of (prefix bars) as_of = bars
ordered_of (sequence bars) as_of = bars_until as_of bars

-- the current bar, if there is one on the day
unfoldable pub bar_on : List DailyBar → Date → Outcome DailyBar
bar_on ordered as_of = do
  bar ← or_raise (last? ordered) no_bar_on_as_of
  raise_if (not (bar.trade_date == as_of)) no_bar_on_as_of
  ok bar

unfoldable pub check_previous :
    Option StrategySignal → DailyBar → Date → StrategyConfig → Outcome (Unit {0})
check_previous none current as_of config = ok tt
check_previous (some previous) current as_of config = do
  raise_if (not (str_eq previous.code current.code)) previous_other_code
  raise_if (not (str_eq previous.strategy_version config.strategy_version)) previous_other_version
  raise_if (leb as_of previous.trade_date) previous_not_before

unfoldable pub check_inputs :
    List DailyBar → Option StrategySignal → Date → StrategyConfig → Outcome DailyBar
check_inputs ordered previous as_of config = do
  current ← bar_on ordered as_of
  raise_if (not (one_code ordered)) several_codes
  raise_if (has_duplicates (dates ordered)) duplicate_dates
  check_previous previous current as_of config
  ok current

abbrev pub usable_pool : List LimitUpRecord → Date → List LimitUpRecord
usable_pool limit_pool as_of = keep (λ r. leb r.trade_date as_of) limit_pool

-- the arguments `precomputed_indicators` and `indicator_end_index`
unfoldable pub indicators_of :
    List DailyBar
    → StrategyConfig
    → Date
    → Option (List IndicatorPoint)
    → Option ℕ
    → Outcome (List IndicatorPoint)
indicators_of ordered config as_of none end_index =
    calculate_indicators ordered config.indicators (some as_of)
indicators_of ordered config as_of (some points) none = raised end_index_missing
indicators_of ordered config as_of (some points) (some end_index) = prefix_view points end_index
