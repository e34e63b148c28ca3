-- ===== src/Plans/Facts.antt =====
-- trade_plan.py: what the bars of the day say about the anchor, the volume and the support. The bars
-- are those until the day of the plan, in order, and `current` is the last of them.
use a_share_limit_pullback.Base.{
  ℕ, Bool, true, false, not, ◌&&◌, ◌||◌, Option, none, some, List, [], ◌∷◌, leb, ltb, ◌==◌,
  if◌then◌else◌, length, keep, first, last_n, sort_by, get_elem?, Outcome, ok, raised, checked,
  lengths_differ, ◌>>=◌,
}
use mathlib.Core.Option
use a_share_limit_pullback.Dates.{Date}
use a_share_limit_pullback.Decimal.{Decimal, nought, ◌≤𝔻◌, ◌<𝔻◌, ◌-𝔻◌, ◌*𝔻◌, ◌/𝔻◌, mean, maximum_of}
use a_share_limit_pullback.Features.Indicators.{calculate_indicators}
use a_share_limit_pullback.Models.Config.{StrategyConfig}
use a_share_limit_pullback.Models.Market.{DailyBar, LimitUpRecord}
use a_share_limit_pullback.Models.Signal.{StrategySignal}
use a_share_limit_pullback.Models.Strategy.{
  AnchorEvaluation, IndicatorPoint, PriceCluster, validate_cluster,
}
use a_share_limit_pullback.Models.TradePlan.{TradePlanConfig}
use a_share_limit_pullback.State.Confirm.{volumes}
use a_share_limit_pullback.State.Identity.{as_cluster}
use a_share_limit_pullback.State.Levels.{computed_support}
use a_share_limit_pullback.Structure.Anchor.{detect_anchor}

-- `sorted({value for value in trade_calendar if value > as_of})[0]`
unfoldable pub next_open_session : Date → Option (List Date) → Option Date
next_open_session as_of none = none
next_open_session as_of (some calendar) =
    get_elem? (sort_by leb (keep (λ d. ltb as_of d) calendar)) 0

unfoldable pub execution_config : StrategyConfig → Option TradePlanConfig → TradePlanConfig
execution_config config (some given) = given
execution_config config none = record {
  prep_support_distance_max = config.b1.prep_support_distance_max;
  prep_volume_to_anchor_max = config.b1.prep_volume_to_anchor_max;
  prep_volume_to_post_anchor_max = config.b1.prep_volume_to_post_anchor_max;
}

abbrev if_detected :
    StrategyConfig
    → Date
    → List DailyBar
    → DailyBar
    → Option AnchorEvaluation
    → Outcome (Option PriceCluster)
if_detected config as_of bars current none = ok none
if_detected config as_of bars current (some anchor) = do
  indicators ← calculate_indicators bars config.indicators (some as_of)
  computed_support config as_of bars indicators current anchor

-- `_cluster_from_support`, and otherwise the support that the bars give
unfoldable pub plan_support :
    List DailyBar
    → DailyBar
    → List LimitUpRecord
    → StrategySignal
    → StrategyConfig
    → Date
    → Outcome (Option PriceCluster)
plan_support bars current limit_pool signal config as_of = elim signal.support [
  | some support ↦ do
    cluster ← checked "PriceCluster" validate_cluster (as_cluster support)
    ok (some cluster)
  | none ↦ elim signal.anchor [
    | none ↦ ok none
    | some _ ↦ do
      anchor ← detect_anchor bars as_of config limit_pool
      if_detected config as_of bars current anchor
  ]
]

unfoldable pub anchor_bar : List DailyBar → StrategySignal → Option DailyBar
anchor_bar bars signal = elim signal.anchor [
  | none ↦ none
  | some anchor ↦ first (λ bar. bar.trade_date == anchor.anchor_date) bars
]

abbrev pub bars_after : DailyBar → List DailyBar → List DailyBar
bars_after anchor = keep (λ bar. ltb anchor.trade_date bar.trade_date)

-- the anchor's bar, when its volume is above nought
abbrev with_volume : Option DailyBar → Option DailyBar
with_volume none = none
with_volume (some bar) = if bar.volume ≤𝔻 nought then none else some bar

abbrev contracted_from : StrategyConfig → DailyBar → DailyBar → List DailyBar → Bool
contracted_from config current anchor [] = false
contracted_from config current anchor (b ∷ bs) =
    let days = config.b1.recent_volume_days in
    if ltb (length (b ∷ bs)) days || ltb (length (b ∷ bs)) 2
    then false
    else current.volume ≤𝔻 anchor.volume *𝔻 config.b1.volume_to_anchor_max
      && mean (volumes (last_n days (b ∷ bs)))
        ≤𝔻 maximum_of b.volume (volumes bs) *𝔻 config.b1.recent_volume_to_post_anchor_max

unfoldable pub volume_contracted : List DailyBar → DailyBar → StrategySignal → StrategyConfig → Bool
unfolding anchor_bar
volume_contracted bars current signal config = elim (with_volume (anchor_bar bars signal)) [
  | none ↦ false
  | some anchor ↦ contracted_from config current anchor (bars_after anchor bars)
]

-- `min(days, len(bars))`
abbrev at_most : ℕ → ℕ → ℕ
at_most days n = if leb days n then days else n

abbrev prep_metrics_from :
    StrategyConfig → TradePlanConfig → DailyBar → DailyBar → List DailyBar → Bool × Option Decimal
prep_metrics_from config plan_config current anchor [] = (false, none)
prep_metrics_from config plan_config current anchor (b ∷ bs) =
    let recent = last_n (at_most config.b1.recent_volume_days (length (b ∷ bs))) (b ∷ bs) in
    let recent_average = mean (volumes recent) in
    let anchor_limit = anchor.volume *𝔻 plan_config.prep_volume_to_anchor_max in
    (
      current.volume ≤𝔻 anchor_limit
          && recent_average ≤𝔻 anchor_limit
          && recent_average
            ≤𝔻 maximum_of b.volume (volumes bs) *𝔻 plan_config.prep_volume_to_post_anchor_max,
      some (recent_average /𝔻 anchor.volume),
    )

unfoldable pub prep_volume_metrics :
    List DailyBar
    → DailyBar
    → StrategySignal
    → StrategyConfig
    → TradePlanConfig
    → Bool × Option Decimal
unfolding anchor_bar
prep_volume_metrics bars current signal config plan_config =
    elim (with_volume (anchor_bar bars signal)) [
      | none ↦ (false, none)
      | some anchor ↦ prep_metrics_from config plan_config current anchor (bars_after anchor bars)
    ]

unfoldable pub near_support : DailyBar → Option PriceCluster → TradePlanConfig → Bool
near_support current none plan_config = false
near_support current (some support) plan_config =
    if current.close <𝔻 support.low
    then false
    else (current.close -𝔻 support.low) /𝔻 support.low ≤𝔻 plan_config.prep_support_distance_max

unfoldable pub distance_to_support_pct : DailyBar → Option PriceCluster → Option Decimal
distance_to_support_pct current none = none
distance_to_support_pct current (some support) =
    if support.low ≤𝔻 nought then none else some ((current.close -𝔻 support.low) /𝔻 support.low)

unfoldable pub days_since_anchor : List DailyBar → StrategySignal → Option ℕ
unfolding anchor_bar
days_since_anchor bars signal =
    Option.map (λ anchor. length (bars_after anchor bars)) (anchor_bar bars signal)

-- `zip(indicators, bars, strict=True)`
unfoldable pub is_damaged : DailyBar → List IndicatorPoint → List DailyBar → Outcome Bool
is_damaged anchor [] [] = ok false
is_damaged anchor (point ∷ points) (bar ∷ bars) =
    if point.kline.is_long_bearish && anchor.volume ≤𝔻 bar.volume
    then ok true
    else is_damaged anchor points bars
is_damaged anchor _ _ = raised lengths_differ

unfoldable pub no_distribution_damage :
    List DailyBar → DailyBar → StrategySignal → StrategyConfig → Outcome Bool
unfolding anchor_bar is_damaged
no_distribution_damage bars current signal config = elim (anchor_bar bars signal) [
  | none ↦ ok false
  | some anchor ↦ do
    indicators ← calculate_indicators bars config.indicators (some current.trade_date)
    let days = at_most config.b1.recent_volume_days (length indicators)
    damaged ← is_damaged anchor (last_n days indicators) (last_n days bars)
    ok (not damaged)
]
