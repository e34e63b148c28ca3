-- ===== src/State/Identity.antt =====
-- state/engine_helpers.py: the identity of a setup, the conversions of frozen snapshots to
-- clusters, and the prices that are quantized to the tick.
use a_share_limit_pullback.Base.{
  ℕ, String, ◌<>◌, Option, none, some, List, [], ◌∷◌, map, last?, last_n, Outcome, ok, or_raise,
  index_error, ◌>>=◌,
}
use a_share_limit_pullback.Decimal.{
  Decimal, decimal, one, magnitude, ◌+𝔻◌, ◌*𝔻◌, ◌/𝔻◌, quantize, maximum_of,
}
use a_share_limit_pullback.Dates.{Date, show, compact}
use a_share_limit_pullback.Models.Config.{StrategyConfig}
use a_share_limit_pullback.Models.Market.{DailyBar}
use a_share_limit_pullback.Models.Snapshots.{SupportSnapshot, S1Snapshot}
use a_share_limit_pullback.Models.Strategy.{PriceCluster}

-- the number of ticks of a price, which is positive
unfoldable pub price_ticks : Decimal → Decimal → ℕ
price_ticks anchor_price price_tick =
    let ticks = quantize (anchor_price /𝔻 price_tick) 0 in magnitude ticks.coefficient

unfoldable pub make_setup_id : String → Date → Decimal → Decimal → String
make_setup_id code anchor_date anchor_price price_tick =
    code <> ":" <> compact anchor_date <> ":" <> show (price_ticks anchor_price price_tick)

unfoldable pub as_cluster : SupportSnapshot → PriceCluster
as_cluster snapshot = record {
  low = snapshot.support_low;
  high = snapshot.support_high;
  center = snapshot.support_center;
  sources = snapshot.sources;
}

unfoldable pub as_s1_cluster : S1Snapshot → PriceCluster
as_s1_cluster snapshot = record {
  low = snapshot.s1_low;
  high = snapshot.s1_high;
  center = (snapshot.s1_low +𝔻 snapshot.s1_high) /𝔻 decimal 2 0;
  sources = snapshot.sources;
}

unfoldable pub quantize_price : Decimal → StrategyConfig → Decimal
quantize_price value config = quantize value config.anchor.price_tick.scale

unfoldable pub expected_b2_trigger : List DailyBar → StrategyConfig → Outcome Decimal
expected_b2_trigger ordered config = do
  bar ← or_raise (last? ordered) index_error
  ok (quantize_price (bar.high *𝔻 (one +𝔻 config.b2.trigger_buffer)) config)

highest : List DailyBar → Option Decimal
highest [] = none
highest (b ∷ bs) = some (maximum_of b.high (map (λ x. x.high) bs))

-- `max` of an empty platform raises too
unfoldable pub platform_b2_trigger : List DailyBar → StrategyConfig → Outcome Decimal
unfolding highest
platform_b2_trigger ordered config = do
  high ← or_raise (highest (last_n config.b2.platform_lookback_days ordered)) index_error
  ok (quantize_price (high *𝔻 (one +𝔻 config.b2.trigger_buffer)) config)
