-- ===== src/Patterns/Facts.antt =====
-- strategy/patterns.py, `evaluate_patterns`: the condition results of the two patterns.
use a_share_limit_pullback.Base.{
  ◌/◌, Bool, not, ◌&&◌, ◌||◌, Option, none, some, List, [], ◌∷◌, ◌++◌, map, ltb, ◌==◌,
  if◌then◌else◌, length, take, drop, last_n, any, is_empty, find_last, Outcome, or_raise, key_error,
}
use a_share_limit_pullback.Conditions.{Results}
use a_share_limit_pullback.Decimal.{Decimal, one, ◌≤𝔻◌, ◌<𝔻◌, ◌+𝔻◌, ◌-𝔻◌, ◌*𝔻◌, mean, minimum_of}
use a_share_limit_pullback.Dates.{Date}
use a_share_limit_pullback.Features.Indicators.{ma_of}
use a_share_limit_pullback.Models.Config.{StrategyConfig}
use a_share_limit_pullback.Models.Market.{DailyBar}
use a_share_limit_pullback.Models.Strategy.{KlineMetrics, IndicatorPoint, PriceCluster}

-- `by_date[d]`; a later point of the same date would replace an earlier one
abbrev pub point_of : List IndicatorPoint → Date → Outcome IndicatorPoint
point_of indicators d = or_raise (find_last (λ p. p.trade_date == d) indicators) key_error

-- a test of a non-empty sequence, else `None`
abbrev pub minimum_test : List Decimal → (Decimal → Bool) → Option Bool
minimum_test [] test = none
minimum_test (x ∷ xs) test = some (test (minimum_of x xs))

abbrev volumes : List DailyBar → List Decimal
volumes = map (λ b. b.volume)

-- the moving averages over 5 and 10 days that there are
unfoldable pub short_mas : IndicatorPoint → List Decimal
short_mas point =
    present (ma_of 5 point.raw_equivalent_mas) ++ present (ma_of 10 point.raw_equivalent_mas)
  where
    present : Option Decimal → List Decimal
    present none = []
    present (some x) = x ∷ []

-- the stop-falling shapes of the current candle, given whether its volume is below the anchor's
abbrev pub is_reversal : KlineMetrics → Bool → Bool
is_reversal kline below_anchor_volume =
    kline.is_doji
    || kline.has_long_lower_shadow
    || (kline.is_bullish && kline.is_small_body)
    || (kline.is_bearish && kline.is_small_body && below_anchor_volume)

module _ (config : StrategyConfig) (anchor_price : Decimal) (anchor_bar current : DailyBar)
    (post_anchor : List DailyBar) where
  -- the amplitudes of the bars after the anchor, in two halves
  unfoldable pub amplitude_contraction : List Decimal → Option Bool
  amplitude_contraction amplitudes =
      let midpoint = length amplitudes / 2 in
      if ltb (length post_anchor) 4
      then none
      else some (
          mean (drop midpoint amplitudes)
          ≤𝔻 mean (take midpoint amplitudes)
            *𝔻 config.patterns.air_refuel.amplitude_contraction_maximum)

  unfoldable pub air_volume_contraction : Option Bool
  air_volume_contraction =
      let days = config.patterns.air_refuel.recent_volume_days in
      if ltb (length post_anchor) days
      then none
      else some (
          mean (volumes (last_n days post_anchor))
          ≤𝔻 anchor_bar.volume *𝔻 config.patterns.air_refuel.recent_volume_to_anchor_maximum)

  unfoldable pub air_conditions : IndicatorPoint → List Decimal → Results
  air_conditions current_indicator amplitudes =
      (
        "post_anchor_close_floor",
        minimum_test (map (λ b. b.close) post_anchor)
            (λ low. anchor_price *𝔻 config.patterns.air_refuel.minimum_close_to_anchor ≤𝔻 low),
      )
      ∷ (
        "current_above_anchor",
        some (
            anchor_price *𝔻 config.patterns.air_refuel.current_close_to_anchor_minimum
            ≤𝔻 current.close),
      )
      ∷ ("amplitude_contraction", amplitude_contraction amplitudes)
      ∷ ("volume_contraction", air_volume_contraction)
      ∷ (
        "near_short_ma",
        minimum_test (short_mas current_indicator) (λ low.
            low *𝔻 (one -𝔻 config.patterns.air_refuel.ma_distance_maximum) ≤𝔻 current.close),
      )
      ∷ []

  -- a test over the bars after the anchor, `None` if there are none
  over_post_anchor : (List DailyBar → Bool) → Option Bool
  over_post_anchor test = if is_empty post_anchor then none else some (test post_anchor)

  over_support : Option PriceCluster → (PriceCluster → List DailyBar → Bool) → Option Bool
  unfolding over_post_anchor
  over_support none test = none
  over_support (some support) test = over_post_anchor (test support)

  touches : PriceCluster → DailyBar → Bool
  touches support bar =
      let tolerance = config.patterns.bearish_pullback.support_touch_tolerance in
      bar.low ≤𝔻 support.high *𝔻 (one +𝔻 tolerance) && support.low *𝔻 (one -𝔻 tolerance) ≤𝔻 bar.high

  breaks_on_volume : PriceCluster → DailyBar → Bool
  breaks_on_volume support bar =
      bar.close <𝔻 support.low *𝔻 (one -𝔻 config.support.invalid_buffer)
      && anchor_bar.volume ≤𝔻 bar.volume

  unfoldable pub bearish_conditions : Option PriceCluster → KlineMetrics → Results
  unfolding over_support touches breaks_on_volume
  bearish_conditions support kline =
      ("bearish_bar_exists", over_post_anchor (any (λ b. b.close <𝔻 b.open_price)))
      ∷ ("support_touch", over_support support (λ s. any (touches s)))
      ∷ (
        "volume_contraction",
        over_post_anchor (λ bars.
            mean (volumes bars)
            ≤𝔻 anchor_bar.volume *𝔻 config.patterns.bearish_pullback.volume_contraction_maximum),
      )
      ∷ ("no_volume_break", over_support support (λ s bars. not (any (breaks_on_volume s) bars)))
      ∷ ("stabilization", some (is_reversal kline (current.volume <𝔻 anchor_bar.volume)))
      ∷ []
