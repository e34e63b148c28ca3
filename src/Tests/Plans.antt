-- ===== src/Tests/Plans.antt =====
-- The plans of two days of a setup.
use a_share_limit_pullback.Base.{
  Bool, true, false, none, some, List, [], ◌∷◌, ◌++◌, String, ◌≡◌, refl,
}
use a_share_limit_pullback.Decimal.{decimal}
use a_share_limit_pullback.Dates.{Date}
use a_share_limit_pullback.Models.Labels.{ExecutionLabel}
use a_share_limit_pullback.Models.Market.{DailyBar}
use a_share_limit_pullback.Models.TradePlan.{
  TradePlan, TradePlanConfig, check_zone, check_label, in_order,
}
use a_share_limit_pullback.Plans.Build.{Provenance, build_trade_plan, plan_fields}
use a_share_limit_pullback.Plans.Clear.{plan_fields-cancel_conditions, plan_fields-check_label}
use a_share_limit_pullback.Plans.Conditions.{prep_conditions}
use a_share_limit_pullback.Plans.Facts.{next_open_session}
use a_share_limit_pullback.Plans.NextSession.{NextOf, next_open_session-NextOf}
use a_share_limit_pullback.Plans.Prefix.{build_trade_plan-later}
use a_share_limit_pullback.Plans.Zone.{plan_fields-check_zone}
use a_share_limit_pullback.Tests.Course.{
  day_on, from_four, is_ok, is_ok-value, on_five, on_four, value,
}
use a_share_limit_pullback.Tests.Engine.{engine}
use a_share_limit_pullback.Tests.Samples.{bar, config, to_watch}

abbrev provenance : Provenance
provenance = record {
  snapshot_id = "snapshot";
  strategy_commit = "commit";
  config_hash = "config";
  execution_config_hash = none;
}

plan_of_four_ok :
    is_ok (build_trade_plan on_four to_watch [] config 739804 none provenance none none) ≡ true
unfolding engine value day_on
plan_of_four_ok = refl

plan_of_five_ok :
    is_ok (build_trade_plan on_five from_four [] config 739805 none provenance none none) ≡ true
unfolding engine value day_on
plan_of_five_ok = refl

abbrev plan_of_four : TradePlan
plan_of_four =
    value (build_trade_plan on_four to_watch [] config 739804 none provenance none none)
      plan_of_four_ok

abbrev plan_of_five : TradePlan
plan_of_five =
    value (build_trade_plan on_five from_four [] config 739805 none provenance none none)
      plan_of_five_ok

-- The close of the first day is above the buy zone; on the second nothing cancels the plan.
four :
    (plan_of_four.execution_label ≡ ExecutionLabel.b1_ready)
    × (plan_of_four.is_actionable ≡ false)
    × (plan_of_four.cancel_conditions ≡ "PRICE_ABOVE_BUY_ZONE" ∷ [])
unfolding engine value day_on
four = (refl, refl, refl)

five :
    (plan_of_five.execution_label ≡ ExecutionLabel.b2_ready)
    × (plan_of_five.is_actionable ≡ true)
    × (plan_of_five.cancel_conditions ≡ [])
unfolding engine value day_on
five = (refl, refl, refl)

abbrev today : DailyBar
today = bar 739805 1105 1120 1100 1110 1105 1500

abbrev limits : TradePlanConfig
limits = record {
  prep_support_distance_max = decimal 4 2;
  prep_volume_to_anchor_max = decimal 100 2;
  prep_volume_to_post_anchor_max = decimal 90 2;
}

prepares : is_ok (prep_conditions on_five from_four today none config limits) ≡ true
unfolding engine value day_on
prepares = refl

abbrev prep : Bool × List String
prep = value (prep_conditions on_five from_four today none config limits) prepares

abbrev plan : TradePlan
plan = plan_fields on_five config limits provenance 739805 none from_four today none prep

actionable : plan.is_actionable ≡ true
unfolding engine value day_on
actionable = refl

plan_fields-cancel_conditions_example : plan.cancel_conditions ≡ []
plan_fields-cancel_conditions_example =
    plan_fields-cancel_conditions on_five config limits provenance 739805 none from_four today none
      prep (is_ok-value _ prepares) actionable

plan_fields-check_label_example : check_label plan ≡ true
plan_fields-check_label_example =
    plan_fields-check_label on_five config limits provenance 739805 none from_four today none prep
      (is_ok-value _ prepares)

zone_in_order : in_order plan.buy_zone_low plan.buy_zone_high ≡ true
unfolding engine value day_on
zone_in_order = refl

plan_fields-check_zone_example : check_zone plan ≡ true
plan_fields-check_zone_example =
    plan_fields-check_zone on_five config limits provenance 739805 none from_four today none prep
      zone_in_order

abbrev a_later_bar : DailyBar
a_later_bar = bar 739805 1105 1120 1100 1110 1105 1500

build_trade_plan-later_example :
    build_trade_plan on_four
      (to_watch ++ a_later_bar ∷ [])
      ([] ++ [])
      config
      739804
      none
      provenance
      none
      none
    ≡ build_trade_plan on_four to_watch [] config 739804 none provenance none none
build_trade_plan-later_example =
    build_trade_plan-later on_four config 739804 to_watch (a_later_bar ∷ []) [] [] none provenance
      none none (refl, tt) tt

abbrev sessions : List Date
sessions = 739808 ∷ 739803 ∷ 739805 ∷ 739804 ∷ []

next_is_five : next_open_session 739804 (some sessions) ≡ some 739805
unfolding engine
next_is_five = refl

next_open_session-NextOf_example : NextOf 739804 sessions (next_open_session 739804 (some sessions))
next_open_session-NextOf_example = next_open_session-NextOf 739804 sessions
