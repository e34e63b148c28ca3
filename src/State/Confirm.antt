-- ===== src/State/Confirm.antt =====
-- state/engine_helpers.py: the conditions of B1 (`_evaluate_b1`) and of the confirmation of B2
-- (`_evaluate_b2_confirmation`).
pub mod Trigger
use a_share_limit_pullback.Base.{
  ℕ, ◌+◌, ◌-◌, Bool, not, ◌&&◌, Option, none, some, List, [], ◌∷◌, map, leb, ◌==◌, if◌then◌else◌,
  length, drop, but_last, last_n, last?, get_elem?, index_from, is_empty, Outcome, or_raise,
  stop_iteration, index_error, ◌>>=◌,
}
use a_share_limit_pullback.Conditions.{Results, conditions}
use a_share_limit_pullback.Decimal.{
  Decimal, nought, one, ◌≤𝔻◌, ◌<𝔻◌, ◌-𝔻◌, ◌*𝔻◌, ◌/𝔻◌, mean, maximum_of,
}
use a_share_limit_pullback.Models.Config.{StrategyConfig}
use a_share_limit_pullback.Models.Market.{DailyBar}
use a_share_limit_pullback.Models.Snapshots.{B2TriggerSnapshot}
use a_share_limit_pullback.Models.Strategy.{
  AnchorEvaluation, ConditionScore, IndicatorPoint, KlineMetrics, PriceCluster,
}
use a_share_limit_pullback.Patterns.Facts.{is_reversal, minimum_test, short_mas}

abbrev pub volumes : List DailyBar → List Decimal
volumes = map (λ b. b.volume)

-- `next(index for index, bar in enumerate(ordered) if bar.trade_date == anchor_date)`
abbrev pub anchor_index : List DailyBar → AnchorEvaluation → Option ℕ
anchor_index ordered anchor =
    index_from 0 (λ b. b.trade_date == anchor.snapshot.anchor_date) ordered

volume_contraction : StrategyConfig → List DailyBar → Option Bool
volume_contraction config [] = none
volume_contraction config (b ∷ bs) =
    let days = config.b1.recent_volume_days in
    if leb days (length (b ∷ bs)) && leb 2 (length (b ∷ bs))
    then some (
        mean (volumes (last_n days (b ∷ bs)))
        ≤𝔻 maximum_of b.volume (volumes bs) *𝔻 config.b1.recent_volume_to_post_anchor_max)
    else none

support_touch : DailyBar → Option PriceCluster → Option Bool
support_touch current none = none
support_touch current (some s) = some (current.low ≤𝔻 s.high && s.low ≤𝔻 current.high)

support_hold : DailyBar → Option PriceCluster → Option Bool
support_hold current none = none
support_hold current (some s) = some (s.low ≤𝔻 current.close)

unfoldable pub b1_results :
    StrategyConfig
    → ℕ
    → Decimal
    → DailyBar
    → DailyBar
    → List DailyBar
    → KlineMetrics
    → Option PriceCluster
    → Results
unfolding volume_contraction support_touch support_hold
b1_results config days_after anchor_price anchor_bar current post_anchor kline support =
    let to_anchor = current.close /𝔻 anchor_price in
    (
      "anchor_day_window",
      some (
          leb config.b1.days_after_anchor_min days_after
          && leb days_after config.b1.days_after_anchor_max),
    )
    ∷ (
      "optimal_day_window",
      some (leb config.b1.optimal_days_min days_after && leb days_after config.b1.optimal_days_max),
    )
    ∷ (
      "anchor_price_band",
      some (
          config.b1.close_to_anchor_min ≤𝔻 to_anchor && to_anchor ≤𝔻 config.b1.close_to_anchor_max),
    )
    ∷ ("support_touch", support_touch current support)
    ∷ ("support_hold", support_hold current support)
    ∷ (
      "anchor_volume_contraction",
      some (current.volume ≤𝔻 anchor_bar.volume *𝔻 config.b1.volume_to_anchor_max),
    )
    ∷ ("recent_volume_contraction", volume_contraction config post_anchor)
    ∷ (
      "no_volume_long_bearish",
      some (not (kline.is_long_bearish && anchor_bar.volume ≤𝔻 current.volume)),
    )
    ∷ ("reversal_kline", some (is_reversal kline (current.volume <𝔻 anchor_bar.volume)))
    ∷ []

unfoldable pub evaluate_b1 :
    List DailyBar
    → List IndicatorPoint
    → DailyBar
    → AnchorEvaluation
    → Option PriceCluster
    → StrategyConfig
    → Outcome ConditionScore
evaluate_b1 ordered indicators current anchor support config = do
  index ← or_raise (anchor_index ordered anchor) stop_iteration
  anchor_bar ← or_raise (get_elem? ordered index) index_error
  current_indicator ← or_raise (last? indicators) index_error
  let days_after = length ordered - 1 - index
  conditions (
      b1_results config days_after anchor.snapshot.anchor_price anchor_bar current
        (drop (index + 1) ordered) current_indicator.kline support)

-- the current volume over the mean volume of the pullback
unfoldable pub volume_ratio : DailyBar → List DailyBar → Option Decimal
volume_ratio current pullback_bars =
    let average = mean (volumes pullback_bars) in
    if is_empty pullback_bars
    then none
    else if nought <𝔻 average
    then some (current.volume /𝔻 average)
    else none

abbrev ratio_test : Option Decimal → (Decimal → Bool) → Option Bool
ratio_test none test = none
ratio_test (some r) test = some (test r)

unfoldable pub b2_results :
    StrategyConfig → DailyBar → IndicatorPoint → List DailyBar → B2TriggerSnapshot → Results
b2_results config current point pullback_bars trigger =
    let kline = point.kline in
    let ratio = volume_ratio current pullback_bars in
    let daily_return = current.close /𝔻 current.preclose -𝔻 one in
    let is_short_body = kline.body_share <𝔻 config.indicators.kline.long_body_share_min in
    ("intraday_trigger_breakout", some (trigger.trigger_price ≤𝔻 current.high))
    ∷ ("close_holds_trigger", some (trigger.trigger_price ≤𝔻 current.close))
    ∷ (
      "daily_return_range",
      some (
          config.b2.daily_return_min ≤𝔻 daily_return && daily_return ≤𝔻 config.b2.daily_return_max),
    )
    ∷ ("moderate_bullish_body", some (kline.is_bullish && not kline.is_doji && is_short_body))
    ∷ ("upper_close_location", some (config.b2.close_location_min ≤𝔻 kline.close_location))
    ∷ ("stands_above_ma5_or_ma10", minimum_test (short_mas point) (λ low. low ≤𝔻 current.close))
    ∷ (
      "volume_expansion_range",
      ratio_test ratio
          (λ r. config.b2.volume_expansion_min ≤𝔻 r && r ≤𝔻 config.b2.volume_expansion_max),
    )
    ∷ (
      "not_explosive_long_bar",
      ratio_test ratio (λ r. r ≤𝔻 config.b2.volume_expansion_max && is_short_body),
    )
    ∷ []

unfoldable pub evaluate_b2_confirmation :
    List DailyBar
    → List IndicatorPoint
    → DailyBar
    → AnchorEvaluation
    → B2TriggerSnapshot
    → StrategyConfig
    → Outcome ConditionScore
evaluate_b2_confirmation ordered indicators current anchor trigger config = do
  index ← or_raise (anchor_index ordered anchor) stop_iteration
  point ← or_raise (last? indicators) index_error
  conditions (b2_results config current point (drop (index + 1) (but_last ordered)) trigger)
