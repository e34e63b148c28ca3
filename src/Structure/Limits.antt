-- ===== src/Structure/Limits.antt =====
-- strategy/structure.py: the limit price of a day, and the bars that close at it.
use a_share_limit_pullback.Base.{Bool, false, ◌&&◌, Option, none, some, [], ◌∷◌, all, is_some}
use a_share_limit_pullback.Decimal.{
  Decimal, one, ◌<𝔻◌, ◌+𝔻◌, ◌-𝔻◌, ◌*𝔻◌, ◌/𝔻◌, quantize, quantize_fits,
}
use a_share_limit_pullback.Models.Config.{StrategyConfig}
use a_share_limit_pullback.Models.Market.{DailyBar, LimitUpRecord}
use a_share_limit_pullback.Structure.Prices.{at_price}

-- The exponent of the tick is its number of decimal places as the configuration writes it; the tick is
-- positive by its type. This is the limit price where `limit_price_fits` holds of the bar.
unfoldable pub theoretical_limit_price : DailyBar → StrategyConfig → Decimal
theoretical_limit_price bar config =
    let tick = config.anchor.price_tick in
    let ticks = quantize (bar.preclose *𝔻 (one +𝔻 config.anchor.limit_rate) /𝔻 tick) 0 in
    quantize (ticks *𝔻 tick) tick.scale

-- whether both of its roundings have a result, and nothing is raised
unfoldable pub limit_price_fits : DailyBar → StrategyConfig → Bool
limit_price_fits bar config =
    let tick = config.anchor.price_tick in
    let ratio = bar.preclose *𝔻 (one +𝔻 config.anchor.limit_rate) /𝔻 tick in
    quantize_fits ratio 0 && quantize_fits (quantize ratio 0 *𝔻 tick) tick.scale

unfoldable pub is_limit_close : DailyBar → StrategyConfig → Bool
is_limit_close bar config =
    at_price bar.close (theoretical_limit_price bar config) config.anchor.limit_price_tolerance

unfoldable pub is_one_word_limit : DailyBar → StrategyConfig → Bool
is_one_word_limit bar config =
    let limit_price = theoretical_limit_price bar config in
    let tolerance = config.anchor.limit_price_tolerance in
    all (λ value. at_price value limit_price tolerance)
      (bar.open_price ∷ bar.high ∷ bar.low ∷ bar.close ∷ [])

unfoldable pub is_t_word_limit : DailyBar → StrategyConfig → Bool
is_t_word_limit bar config =
    let limit_price = theoretical_limit_price bar config in
    let tolerance = config.anchor.limit_price_tolerance in
    at_price bar.open_price limit_price tolerance
    && at_price bar.high limit_price tolerance
    && at_price bar.close limit_price tolerance
    && bar.low <𝔻 limit_price -𝔻 tolerance

unfoldable pub pool_record_is_full : Option LimitUpRecord → Bool
pool_record_is_full none = false
pool_record_is_full (some record_) =
    is_some record_.first_seal_time
    && is_some record_.last_seal_time
    && is_some record_.open_count
    && is_some record_.consecutive_count
