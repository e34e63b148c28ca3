-- ===== src/Structure/Support.antt =====
-- strategy/structure.py: the candidates of a support level, and the choice of a cluster.
pub mod Nearest
use a_share_limit_pullback.Base.{
  ℕ, Bool, true, false, ◌||◌, ◌<>◌, Option, none, some, List, [], ◌∷◌, ◌++◌, map, leb, ltb,
  if◌then◌else◌, length, keep, last_n, find_last, contains, then_by, least, Outcome, ok, ◌>>=◌,
}
use a_share_limit_pullback.Decimal.{
  Decimal, one, ◌≤𝔻◌, ◌<𝔻◌, ◌+𝔻◌, ◌-𝔻◌, ◌*𝔻◌, ◌/𝔻◌, absolute, maximum_of,
}
use a_share_limit_pullback.Dates.{Date, show}
use a_share_limit_pullback.Features.Bars.{bars_until}
use a_share_limit_pullback.Features.Indicators.{ma_of}
use a_share_limit_pullback.Models.Config.{StrategyConfig}
use a_share_limit_pullback.Models.Market.{DailyBar}
use a_share_limit_pullback.Models.Strategy.{
  AnchorEvaluation, IndicatorPoint, PriceCluster, PriceLevelCandidate,
}
use a_share_limit_pullback.Structure.Prices.{level}

platform_high : List DailyBar → Outcome (List PriceLevelCandidate)
platform_high [] = ok []
platform_high (b ∷ bs) = do
  c ← level "PLATFORM_HIGH_20" (maximum_of b.high (map (λ x. x.high) bs))
  ok (c ∷ [])

-- the `for window in config.support.moving_average_sources` loop
ma_levels : IndicatorPoint → List ℕ → Outcome (List PriceLevelCandidate)
ma_levels point [] = ok []
ma_levels point (window ∷ windows) = elim (ma_of window point.raw_equivalent_mas) [
  | none ↦ ma_levels point windows
  | some value ↦ do
    c ← level ("MA" <> show window) value
    rest ← ma_levels point windows
    ok (c ∷ rest)
]

ma_levels_of : Option IndicatorPoint → List ℕ → Outcome (List PriceLevelCandidate)
unfolding ma_levels
ma_levels_of none windows = ok []
ma_levels_of (some point) windows = ma_levels point windows

unfoldable pub generate_support_candidates :
    List DailyBar
    → List IndicatorPoint
    → AnchorEvaluation
    → Date
    → StrategyConfig
    → Outcome (List PriceLevelCandidate)
unfolding platform_high ma_levels_of
generate_support_candidates bars indicators anchor as_of config = do
  let ordered = bars_until as_of bars
  let before = keep (λ b. ltb b.trade_date anchor.snapshot.anchor_date) ordered
  anchor_level ← level "ANCHOR_PRICE" anchor.snapshot.anchor_price
  platform ← platform_high (last_n config.support.platform_lookback_days before)
  mas ←
      ma_levels_of (find_last (λ p. leb p.trade_date as_of) indicators)
        config.support.moving_average_sources
  ok (anchor_level ∷ platform ++ mas)

-- `"ANCHOR_PRICE" in cluster.sources or "MA10" in cluster.sources`
abbrev pub has_key_source : PriceCluster → Bool
has_key_source c = contains c.sources "ANCHOR_PRICE" || contains c.sources "MA10"

unfoldable pub relative_distance : Decimal → PriceCluster → Decimal
relative_distance close c = absolute (close -𝔻 c.center) /𝔻 close

-- `rank(a) < rank(b)`
unfoldable pub ranks_before : Decimal → PriceCluster → PriceCluster → Bool
ranks_before close a b =
    then_by (relative_distance close a <𝔻 relative_distance close b)
      (relative_distance close b <𝔻 relative_distance close a)
      (then_by (ltb (length b.sources) (length a.sources))
        (ltb (length a.sources) (length b.sources))
        (then_by (if has_key_source a then (if has_key_source b then false else true) else false)
          (if has_key_source b then (if has_key_source a then false else true) else false)
          (a.low <𝔻 b.low)))

abbrev pub is_nearby : Decimal → StrategyConfig → PriceCluster → Bool
is_nearby current_close config c =
    c.center ≤𝔻 current_close *𝔻 (one +𝔻 config.support.max_above_reference_close)

unfoldable pub select_support_cluster :
    List PriceCluster → Decimal → StrategyConfig → Option PriceCluster
select_support_cluster clusters current_close config =
    least (ranks_before current_close) (keep (is_nearby current_close config) clusters)
