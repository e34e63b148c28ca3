-- ===== src/Plans/Conditions.antt =====
-- trade_plan.py: the reasons against a plan, its risk and reward, and its entry within the buy zone.
use a_share_limit_pullback.Base.{
  ℕ, Bool, not, ◌&&◌, ◌||◌, String, Option, none, some, List, [], ◌∷◌, ◌++◌, leb, if◌then◌else◌,
  is_none, is_empty, sorted, distinct, Outcome, ok, ◌>>=◌,
}
use a_share_limit_pullback.Decimal.{
  Decimal, decimal, nought, ◌≤𝔻◌, ◌+𝔻◌, ◌-𝔻◌, ◌/𝔻◌, minimum, maximum, quantize,
}
use a_share_limit_pullback.Models.Config.{StrategyConfig}
use a_share_limit_pullback.Models.Enums.{
  EventFlag, is_b1_ready, is_invalid, is_unusable, room_is_none,
}
use a_share_limit_pullback.Models.Market.{DailyBar}
use a_share_limit_pullback.Models.Signal.{StrategySignal, flagged, has}
use a_share_limit_pullback.Models.Strategy.{PriceCluster}
use a_share_limit_pullback.Models.TradePlan.{TradePlanConfig, is_watch_pullback}
use a_share_limit_pullback.Plans.Facts.{
  days_since_anchor, near_support, no_distribution_damage, prep_volume_metrics,
}

-- `_ratio`
abbrev pub ratio_of : Decimal → Decimal
ratio_of value = quantize value 4

-- `if test: reasons.append(reason)`
abbrev pub because : Bool → String → List String
because test reason = if test then reason ∷ [] else []

abbrev window_reason : StrategyConfig → Option ℕ → List String
window_reason config none = "NO_VALID_ANCHOR" ∷ []
window_reason config (some days) =
    because
      (not (leb config.b1.days_after_anchor_min days && leb days config.b1.days_after_anchor_max))
      "OUTSIDE_PULLBACK_WINDOW"

abbrev support_reason : DailyBar → TradePlanConfig → Option PriceCluster → List String
support_reason current plan_config none = "NO_RELIABLE_SUPPORT" ∷ []
support_reason current plan_config (some support) =
    because (not (near_support current (some support) plan_config)) "PRICE_NOT_NEAR_SUPPORT"

-- the reasons of each test, in the order of the source
unfoldable pub prep_tests :
    StrategySignal
    → List DailyBar
    → DailyBar
    → Option PriceCluster
    → StrategyConfig
    → TradePlanConfig
    → Bool
    → List (List String)
unfolding days_since_anchor near_support prep_volume_metrics
prep_tests signal bars current support config plan_config undamaged =
    because (is_none signal.anchor) "NO_VALID_ANCHOR"
    ∷ because (not (is_watch_pullback signal.setup_stage || is_b1_ready signal.setup_stage))
        "STRUCTURE_NOT_WATCH_OR_B1"
    ∷ because (is_invalid signal.setup_stage) "INVALID_SETUP"
    ∷ window_reason config (days_since_anchor bars signal)
    ∷ because (is_unusable signal.data_quality) "DATA_QUALITY_UNUSABLE"
    ∷ because (flagged EventFlag.s2_exhausted signal) "S2_EXHAUSTED"
    ∷ because (flagged EventFlag.s1_breakout signal) "S1_BREAKOUT"
    ∷ because (has room_is_none signal.entry_room_state) "ENTRY_ROOM_NONE"
    ∷ support_reason current plan_config support
    ∷ because (not (prep_volume_metrics bars current signal config plan_config).0)
        "VOLUME_NOT_CONTRACTED"
    ∷ because (not undamaged) "BEARISH_VOLUME_DAMAGE"
    ∷ []

unfoldable pub concat : List (List String) → List String
concat [] = []
concat (xs ∷ rest) = xs ++ concat rest

unfoldable pub prep_reasons :
    StrategySignal
    → List DailyBar
    → DailyBar
    → Option PriceCluster
    → StrategyConfig
    → TradePlanConfig
    → Bool
    → List String
unfolding prep_tests concat
prep_reasons signal bars current support config plan_config undamaged =
    concat (prep_tests signal bars current support config plan_config undamaged)

-- whether the event may be prepared, and the reasons against it
unfoldable pub prep_conditions :
    StrategySignal
    → List DailyBar
    → DailyBar
    → Option PriceCluster
    → StrategyConfig
    → TradePlanConfig
    → Outcome (Bool × List String)
unfolding prep_reasons
prep_conditions signal bars current support config plan_config = do
  undamaged ← no_distribution_damage bars current signal config
  let reasons = prep_reasons signal bars current support config plan_config undamaged
  ok (is_empty reasons, sorted (distinct reasons))

unfoldable pub cancel_conditions : StrategySignal → List String → List String → List String
cancel_conditions signal reasons extra_reasons = sorted (
    distinct (
      reasons
      ++ extra_reasons
      ++ because (is_invalid signal.setup_stage) "INVALID_SETUP"
      ++ because (flagged EventFlag.s2_exhausted signal) "S2_EXHAUSTED"
      ++ because (flagged EventFlag.s1_breakout signal) "S1_BREAKOUT_CONFIRMED"
      ++ because (is_unusable signal.data_quality) "DATA_QUALITY_UNUSABLE"
      ++ because (has room_is_none signal.entry_room_state) "ENTRY_ROOM_NONE"))

abbrev rr_of : Decimal → Decimal → Decimal → Decimal → Option Decimal
rr_of entry invalid s1 risk =
    if s1 ≤𝔻 entry || entry ≤𝔻 invalid || risk ≤𝔻 nought
    then none
    else some (ratio_of (ratio_of ((s1 -𝔻 entry) /𝔻 entry) /𝔻 risk))

-- the risk, the reward, and the reward over the risk
unfoldable pub risk_reward_fields :
    Option Decimal
    → Option Decimal
    → Option Decimal
    → Option Decimal × Option Decimal × Option Decimal
risk_reward_fields (some entry) (some invalid) none =
    (some (ratio_of ((entry -𝔻 invalid) /𝔻 entry)), none, none)
risk_reward_fields (some entry) (some invalid) (some s1) =
    let risk = ratio_of ((entry -𝔻 invalid) /𝔻 entry) in
    (some risk, some (ratio_of ((s1 -𝔻 entry) /𝔻 entry)), rr_of entry invalid s1 risk)
risk_reward_fields _ _ _ = (none, none, none)

abbrev pub clamped_middle : Decimal → Decimal → Decimal
clamped_middle low high = minimum (maximum ((low +𝔻 high) /𝔻 decimal 2 0) low) high

-- the entry itself where it lies in the zone, and the middle of the zone otherwise
unfoldable pub preferred_in_buy_zone :
    Option Decimal → Option Decimal → Option Decimal → Option Decimal
preferred_in_buy_zone none (some low) (some high) = some (clamped_middle low high)
preferred_in_buy_zone (some entry) (some low) (some high) =
    if low ≤𝔻 entry && entry ≤𝔻 high then some entry else some (clamped_middle low high)
preferred_in_buy_zone entry _ _ = entry
