-- ===== src/Plans/Zone.antt =====
-- The preferred entry of a plan lies in its buy zone.
use a_share_limit_pullback.Base.{
  Bool, true, false, not, ◌&&◌, ◌||◌, Option, none, some, List, String, if◌then◌else◌, Bool-cases,
  inl, inr, ◌≡◌, refl, arith,
}
use a_share_limit_pullback.Dates.{Date}
use a_share_limit_pullback.Decimal.{Decimal, decimal, ◌≤𝔻◌, ◌+𝔻◌, ◌/𝔻◌, minimum, maximum}
use a_share_limit_pullback.Decimal.Order.{le-maximum_right, minimum-le_right}
use a_share_limit_pullback.Models.Config.{StrategyConfig}
use a_share_limit_pullback.Models.Enums.{SetupStage}
use a_share_limit_pullback.Models.Labels.{ExecutionLabel, label_is_b1_prep}
use a_share_limit_pullback.Models.Market.{DailyBar}
use a_share_limit_pullback.Models.Signal.{StrategySignal}
use a_share_limit_pullback.Models.Strategy.{PriceCluster}
use a_share_limit_pullback.Models.TradePlan.{
  TradePlan, TradePlanConfig, check_zone, in_order, is_between, label_is_b1_ready,
}
use a_share_limit_pullback.Plans.Build.{
  Provenance, Prices, label_at, plan_fields, prep_prices, stage_prices,
}
use a_share_limit_pullback.Plans.Conditions.{clamped_middle, preferred_in_buy_zone}

le-minimum : (c a b : Decimal) → (c ≤𝔻 a) ≡ true → (c ≤𝔻 b) ≡ true → (c ≤𝔻 minimum a b) ≡ true
le-minimum c a b h k = ground (arith, h, k)

clamped_middle-is_between :
    (low high : Decimal)
    → (low ≤𝔻 high) ≡ true
    → is_between (some (clamped_middle low high)) (some low) (some high) ≡ true
clamped_middle-is_between low high h =
    let middle = (low +𝔻 high) /𝔻 decimal 2 0 in
    rw
      (
        le-minimum low (maximum middle low) high (le-maximum_right middle low) h,
        minimum-le_right (maximum middle low) high,
      )
      refl

preferred-is_between :
    (entry low high : Option Decimal)
    → in_order low high ≡ true
    → is_between (preferred_in_buy_zone entry low high) low high ≡ true
unfolding preferred_in_buy_zone
preferred-is_between none (some low) (some high) h = clamped_middle-is_between low high h
preferred-is_between (some entry) (some low) (some high) h =
    elim (Bool-cases (low ≤𝔻 entry && entry ≤𝔻 high)) [
      | inl inside ↦ rw (inside) inside
      | inr outside ↦ rw (outside) (clamped_middle-is_between low high h)
    ]
preferred-is_between none none high h = refl
preferred-is_between none (some low) none h = refl
preferred-is_between (some entry) none high h = refl
preferred-is_between (some entry) (some low) none h = refl

-- the entry lies in the zone, when the zone is in order, at the labels of B1
IsInZone : Prices → ExecutionLabel → Type 0
IsInZone p label =
    in_order p.zone_low p.zone_high ≡ true
    → (not (label_is_b1_prep label || label_is_b1_ready label)
        || is_between p.preferred p.zone_low p.zone_high)
      ≡ true

module _ (config : StrategyConfig) (current : DailyBar) (signal : StrategySignal) where
  prep-IsInZone :
      (support : Option PriceCluster)
      → IsInZone (prep_prices config current support) ExecutionLabel.b1_prep
  unfolding IsInZone
  prep-IsInZone none h = refl
  prep-IsInZone (some support) h =
      preferred-is_between (some support.center) (some support.low) (some support.high) h

  at_stage-IsInZone :
      (support : Option PriceCluster) (stage : SetupStage) (prep_ok : Bool)
      → let label = (label_at signal prep_ok stage).0 in
        IsInZone
          (if label_is_b1_prep label
            then prep_prices config current support
            else stage_prices config current signal support stage)
          label
  unfolding IsInZone
  at_stage-IsInZone support SetupStage.watch_pullback true h = prep-IsInZone support h
  at_stage-IsInZone support SetupStage.watch_pullback false h = refl
  at_stage-IsInZone support SetupStage.b1_ready prep_ok h =
      preferred-is_between signal.entry_reference_price _ _ h
  at_stage-IsInZone support SetupStage.b2_ready prep_ok h = refl
  at_stage-IsInZone support SetupStage.b2_confirmed prep_ok h = refl
  at_stage-IsInZone support SetupStage.normal prep_ok h = refl
  at_stage-IsInZone support SetupStage.limit_anchor prep_ok h = refl
  at_stage-IsInZone support SetupStage.invalid prep_ok h = refl

and_true : (a b : Bool) → a ≡ true → b ≡ true → (a && b) ≡ true
and_true a b h k = ground (arith, h, k)

module _ (signal : StrategySignal) (config : StrategyConfig) (plan_config : TradePlanConfig)
    (provenance : Provenance) (plan_date : Date) (next_date : Option Date) (bars : List DailyBar)
    (current : DailyBar) (support : Option PriceCluster) (prep : Bool × List String) where
  abbrev plan : TradePlan
  plan =
      plan_fields signal config plan_config provenance plan_date next_date bars current support prep

  -- A plan whose buy zone is in order, its low not above its high, passes the validator's zone check:
  -- at B1_PREP and B1_READY its preferred entry, where it has one and a zone, lies in the zone.
  pub plan_fields-check_zone :
      in_order plan.buy_zone_low plan.buy_zone_high ≡ true → check_zone plan ≡ true
  unfolding plan_fields check_zone IsInZone
  plan_fields-check_zone h =
      and_true _ _ h (at_stage-IsInZone config current signal support signal.setup_stage prep.0 h)
