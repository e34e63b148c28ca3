-- ===== src/Features/Indicators.antt =====
-- strategy/indicators_calc.py, and the prefix view over indicators computed before
-- (features/common/views.py), which is here the list of the points that it shows.
use a_share_limit_pullback.Base.{
  ℕ, ◌+◌, ◌-◌, Option, none, some, List, [], ◌∷◌, map, if◌then◌else◌, ltb, take, drop, length,
  get_num, Outcome, ok, raised, lengths_differ, end_out_of_range, checked, raise_if, ◌>>=◌, ◌>>◌,
}
use a_share_limit_pullback.Decimal.{
  Decimal, nought, ◌=𝔻◌, ◌*𝔻◌, ◌/𝔻◌, ◌-𝔻◌, mean, minimum_of, maximum_of,
}
use a_share_limit_pullback.Dates.{Date}
use a_share_limit_pullback.Features.Bars.{ordered_bars}
use a_share_limit_pullback.Features.Continuous.{build_continuous_prices}
use a_share_limit_pullback.Features.Kline.{calculate_kline_metrics}
use a_share_limit_pullback.Models.Config.{IndicatorsConfig}
use a_share_limit_pullback.Models.Market.{DailyBar}
use a_share_limit_pullback.Models.Strategy.{ContinuousPricePoint, IndicatorPoint, validate_metrics}

-- `mas.get(window)`: a missing key and a stored `None` are both `None`
unfoldable pub ma_of : ℕ → List (ℕ × Option Decimal) → Option Decimal
ma_of window mas = elim (get_num window mas) [ none ↦ none | some ma ↦ ma ]

-- `values[index - window + 1 : index + 1]`
abbrev window_values : List Decimal → ℕ → ℕ → List Decimal
window_values values index window = take window (drop (index + 1 - window) values)

abbrev continuous_ma : List Decimal → ℕ → ℕ → Option Decimal
continuous_ma values index window =
    if ltb (index + 1) window then none else some (mean (window_values values index window))

abbrev raw_ma : DailyBar → ContinuousPricePoint → Option Decimal → Option Decimal
raw_ma bar point none = none
raw_ma bar point (some ma) = some (ma *𝔻 bar.close /𝔻 point.continuous_close)

compression : Option Decimal → Option Decimal → Option Decimal → Decimal → Option Decimal
compression (some a) (some b) (some c) close =
    some ((maximum_of a (b ∷ c ∷ []) -𝔻 minimum_of a (b ∷ c ∷ [])) /𝔻 close)
compression _ _ _ _ = none

position_in : List Decimal → Decimal → Option Decimal
position_in [] close = none
position_in (v ∷ vs) close =
    let low = minimum_of v vs in
    let high = maximum_of v vs in
    some (if high =𝔻 low then nought else (close -𝔻 low) /𝔻 (high -𝔻 low))

module _ (config : IndicatorsConfig) (values : List Decimal) where
  unfoldable pub indicator_at : ℕ → DailyBar → ContinuousPricePoint → IndicatorPoint
  unfolding compression position_in
  indicator_at index bar point =
      let mas = map (λ w. (w, continuous_ma values index w)) config.moving_average_windows in
      record {
        trade_date = bar.trade_date;
        code = bar.code;
        continuous_close = point.continuous_close;
        continuous_mas = mas;
        raw_equivalent_mas = map (λ m. (m.0, raw_ma bar point m.1)) mas;
        ma_compression =
            compression (ma_of 5 mas) (ma_of 10 mas) (ma_of 20 mas) point.continuous_close;
        position_120 =
            if ltb (index + 1) config.position_window
            then none
            else position_in (window_values values index config.position_window)
                point.continuous_close;
        kline = calculate_kline_metrics bar config;
      }

  abbrev checked_indicator : ℕ → DailyBar → ContinuousPricePoint → Outcome IndicatorPoint
  checked_indicator index bar point = do
    checked "KlineMetrics" validate_metrics (calculate_kline_metrics bar config)
    ok (indicator_at index bar point)

  -- the `for index, (bar, point) in enumerate(zip(ordered, continuous, strict=True))` loop
  unfoldable pub indicators_from :
      ℕ → List DailyBar → List ContinuousPricePoint → Outcome (List IndicatorPoint)
  indicators_from index [] [] = ok []
  indicators_from index (bar ∷ bars) (point ∷ points) = do
    p ← checked_indicator index bar point
    rest ← indicators_from (index + 1) bars points
    ok (p ∷ rest)
  indicators_from index _ _ = raised lengths_differ

unfoldable pub calculate_indicators :
    List DailyBar → IndicatorsConfig → Option Date → Outcome (List IndicatorPoint)
calculate_indicators bars config as_of = do
  ordered ← ordered_bars bars as_of
  continuous ← build_continuous_prices ordered none
  indicators_from config (map (λ p. p.continuous_close) continuous) 0 ordered continuous

-- `IndicatorPrefixView(points, end)`
unfoldable pub prefix_view {ℓ} : {A : Type ℓ} → List A → ℕ → Outcome (List A)
prefix_view points end = do
  raise_if (ltb (length points) end) end_out_of_range
  ok (take end points)
