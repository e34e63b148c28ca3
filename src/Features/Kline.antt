-- ===== src/Features/Kline.antt =====
-- The shape of one candle: features/common/math.py, `calculate_kline_ratios`, and
-- strategy/kline_policy.py.
use a_share_limit_pullback.Base.{Bool, ◌&&◌, if◌then◌else◌}
use a_share_limit_pullback.Decimal.{
  Decimal, nought, one, ◌≤𝔻◌, ◌<𝔻◌, ◌=𝔻◌, ◌-𝔻◌, ◌/𝔻◌, absolute, minimum, maximum,
}
use a_share_limit_pullback.Models.Config.{IndicatorsConfig}
use a_share_limit_pullback.Models.Market.{DailyBar}
use a_share_limit_pullback.Models.Strategy.{KlineMetrics}

pub record KlineRatios : Type 0 where
  pub body_share : Decimal
  pub close_location : Decimal
  pub upper_shadow_share : Decimal
  pub lower_shadow_share : Decimal
  pub amplitude : Decimal
  pub is_bullish : Bool
  pub is_bearish : Bool

unfoldable pub calculate_kline_ratios : DailyBar → KlineRatios
calculate_kline_ratios bar =
    let price_range = bar.high -𝔻 bar.low in
    let flat = price_range =𝔻 nought in
    record {
      body_share = if flat then nought else absolute (bar.close -𝔻 bar.open_price) /𝔻 price_range;
      close_location = if flat then one else (bar.close -𝔻 bar.low) /𝔻 price_range;
      upper_shadow_share =
          if flat then nought else (bar.high -𝔻 maximum bar.open_price bar.close) /𝔻 price_range;
      lower_shadow_share =
          if flat then nought else (minimum bar.open_price bar.close -𝔻 bar.low) /𝔻 price_range;
      amplitude = if flat then nought else price_range /𝔻 bar.preclose;
      is_bullish = bar.open_price <𝔻 bar.close;
      is_bearish = bar.close <𝔻 bar.open_price;
    }

unfoldable pub classify_kline_flags : KlineRatios → IndicatorsConfig → KlineMetrics
classify_kline_flags ratios config = record {
  body_share = ratios.body_share;
  close_location = ratios.close_location;
  upper_shadow_share = ratios.upper_shadow_share;
  lower_shadow_share = ratios.lower_shadow_share;
  amplitude = ratios.amplitude;
  is_bullish = ratios.is_bullish;
  is_bearish = ratios.is_bearish;
  is_doji = ratios.body_share ≤𝔻 config.kline.doji_body_share_max;
  is_small_body = ratios.body_share ≤𝔻 config.kline.small_body_share_max;
  is_long_bearish = ratios.is_bearish && config.kline.long_body_share_min ≤𝔻 ratios.body_share;
  has_long_lower_shadow = config.kline.long_shadow_share_min ≤𝔻 ratios.lower_shadow_share;
}

unfoldable pub calculate_kline_metrics : DailyBar → IndicatorsConfig → KlineMetrics
calculate_kline_metrics bar config = classify_kline_flags (calculate_kline_ratios bar) config
