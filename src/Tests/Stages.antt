-- ===== src/Tests/Stages.antt =====
-- What a day needs to confirm B2 or to end a setup, and the parts of a day, at concrete inputs.
use a_share_limit_pullback.Base.{
  true, false, ◌&&◌, Option, ◌>>=◌, Outcome, some, List, [], ◌∷◌, ◌++◌, contains, all, leb, ◌≡◌,
  refl,
}
use a_share_limit_pullback.Decimal.{decimal, ◌≤𝔻◌}
use a_share_limit_pullback.Models.Enums.{SetupStage, EventFlag, ScoreProfile, is_invalid}
use a_share_limit_pullback.Models.Market.{DailyBar}
use a_share_limit_pullback.Models.Signal.{StrategySignal, has, check_review}
use a_share_limit_pullback.Models.Snapshots.{B2TriggerSnapshot}
use a_share_limit_pullback.Models.Strategy.{PriceCluster, PriceLevelCandidate, ConditionScore}
use a_share_limit_pullback.State.Confirm.{evaluate_b2_confirmation}
use a_share_limit_pullback.State.Confirm.Trigger.{evaluate_b2_confirmation-matched}
use a_share_limit_pullback.State.Decide.{decide}
use a_share_limit_pullback.State.Entry.{has_flag, no_entry_room}
use a_share_limit_pullback.State.Events.{EventReasons, evaluate_event_flags}
use a_share_limit_pullback.State.Events.Flags.{
  evaluate_event_flags-exclusive, evaluate_event_flags-invalid,
}
use a_share_limit_pullback.State.Frozen.{frozen_of, same_setup}
use a_share_limit_pullback.State.Levels.{day_levels}
use a_share_limit_pullback.State.Publish.{Decision, signal_reward, signal_of, published}
use a_share_limit_pullback.State.Publish.Checks.{signal_of-check_review}
use a_share_limit_pullback.State.Setup.Course.{Day, IsNextDay, signal_on, setup_of}
use a_share_limit_pullback.State.Setup.Stages.{
  HasReached, signal_on-HasReached, invalid-has_eligible,
}
use a_share_limit_pullback.State.Transition.{prior_trigger}
use a_share_limit_pullback.Structure.Prices.{groups_of}
use a_share_limit_pullback.Structure.Prices.Groups.{groups_of_lem, ungroup, is_linked, are_split}
use a_share_limit_pullback.Tests.Course.{
  day_on, day_five, on_five, from_four, value, is_ok, is_ok-value,
}
use a_share_limit_pullback.Tests.Samples.{config, flat_ranking, bar}
use a_share_limit_pullback.Tests.Engine.{engine}

abbrev pub up : List DailyBar
up = from_four ++ bar 739806 1112 1165 1110 1160 1110 2200 ∷ []

abbrev down : List DailyBar
down = from_four ++ bar 739806 1100 1105 1000 1010 1110 3000 ∷ []

pub up_ok : is_ok (day_on 739806 up) ≡ true
unfolding engine day_on
up_ok = refl

down_ok : is_ok (day_on 739806 down) ≡ true
unfolding engine day_on
down_ok = refl

abbrev pub day_up : Day
day_up = value (day_on 739806 up) up_ok

abbrev day_down : Day
day_down = value (day_on 739806 down) down_ok

pub on_up_ok : is_ok (signal_on flat_ranking config day_up (some on_five)) ≡ true
unfolding engine day_on value
on_up_ok = refl

on_down_ok : is_ok (signal_on flat_ranking config day_down (some on_five)) ≡ true
unfolding engine day_on value
on_down_ok = refl

abbrev pub on_up : StrategySignal
on_up = value (signal_on flat_ranking config day_up (some on_five)) on_up_ok

abbrev on_down : StrategySignal
on_down = value (signal_on flat_ranking config day_down (some on_five)) on_down_ok

up_stage : on_up.setup_stage ≡ SetupStage.b2_confirmed
unfolding engine day_on value
up_stage = refl

down_stage : on_down.setup_stage ≡ SetupStage.invalid
unfolding engine day_on value
down_stage = refl

five_stage : is_invalid on_five.setup_stage ≡ false
unfolding engine day_on value
five_stage = refl

five_then_down : IsNextDay flat_ranking config day_down on_five on_down
unfolding engine day_on value
five_then_down = record { same = refl; later = refl; evaluated = is_ok-value _ on_down_ok }

signal_on-HasReached_example :
    HasReached day_up.as_of day_up.current
      (prior_trigger (same_setup (some on_five) (setup_of flat_ranking config day_up)))
signal_on-HasReached_example =
    signal_on-HasReached flat_ranking config day_up on_up (some on_five) (is_ok-value _ on_up_ok)
      up_stage

invalid-has_eligible_example :
    (has (λ x. leb x.eligible_from day_down.as_of) on_five.support ≡ true)
    × (has (λ x. leb x.eligible_from day_down.as_of) on_five.invalid_price_snapshot ≡ true)
invalid-has_eligible_example =
    invalid-has_eligible flat_ranking config day_down on_down on_five five_then_down five_stage
      down_stage

abbrev pub near_support : PriceCluster
near_support = record {
  low = decimal 1100 2;
  high = decimal 1105 2;
  center = decimal 1102 2;
  sources = "MA10" ∷ [];
}

abbrev pub passed_s1 : PriceCluster
passed_s1 = record {
  low = decimal 1090 2;
  high = decimal 1100 2;
  center = decimal 1095 2;
  sources = "RECENT_HIGH_20:2026-07-20" ∷ [];
}

abbrev events_at : SetupStage → Outcome (List EventFlag × EventReasons)
events_at stage =
    evaluate_event_flags day_five.ordered day_five.indicators day_five.current (some near_support)
      (some (decimal 1095 2)) (some passed_s1) stage config

events_ok :
    (is_ok (events_at SetupStage.b2_ready) ≡ true) × (is_ok (events_at SetupStage.invalid) ≡ true)
unfolding engine day_on value
events_ok = (refl, refl)

evaluate_event_flags-exclusive_example :
    (has_flag EventFlag.s1_breakout (value (events_at SetupStage.b2_ready) events_ok.0).0
      && has_flag EventFlag.near_s1 (value (events_at SetupStage.b2_ready) events_ok.0).0)
    ≡ false
evaluate_event_flags-exclusive_example =
    evaluate_event_flags-exclusive day_five.ordered day_five.indicators day_five.current
      (some near_support) (some (decimal 1095 2)) (some passed_s1) config SetupStage.b2_ready
      (value (events_at SetupStage.b2_ready) events_ok.0) (is_ok-value _ events_ok.0)

evaluate_event_flags-invalid_example :
    has_flag EventFlag.s1_breakout (value (events_at SetupStage.invalid) events_ok.1).0 ≡ false
evaluate_event_flags-invalid_example =
    evaluate_event_flags-invalid day_five.ordered day_five.indicators day_five.current
      (some near_support) (some (decimal 1095 2)) (some passed_s1) config EventFlag.s1_breakout
      (value (events_at SetupStage.invalid) events_ok.1) refl (is_ok-value _ events_ok.1)

breakout_found :
    has_flag EventFlag.s1_breakout (value (events_at SetupStage.b2_ready) events_ok.0).0 ≡ true
unfolding engine day_on value
breakout_found = refl

abbrev levels : List PriceLevelCandidate
levels =
    record { source = "MA10"; value = decimal 1000 2 }
    ∷ record { source = "MA5"; value = decimal 1010 2 }
    ∷ record { source = "ANCHOR_PRICE"; value = decimal 1100 2 }
    ∷ []

groups_of_lem_example :
    (ungroup (groups_of (decimal 2 2) levels) ≡ levels)
    × (all (is_linked (decimal 2 2)) (groups_of (decimal 2 2) levels) ≡ true)
    × (are_split (decimal 2 2) (groups_of (decimal 2 2) levels) ≡ true)
groups_of_lem_example = groups_of_lem (decimal 2 2) levels

abbrev trigger : B2TriggerSnapshot
trigger = record {
  trigger_price = decimal 1150 2;
  frozen_as_of = 739805;
  eligible_from = 739806;
  sources = "PULLBACK_PLATFORM_HIGH" ∷ [];
}

abbrev b2_up : Outcome ConditionScore
b2_up =
    evaluate_b2_confirmation day_up.ordered day_up.indicators day_up.current day_up.anchor trigger
      config

b2_up_ok : is_ok b2_up ≡ true
unfolding engine day_on value
b2_up_ok = refl

evaluate_b2_confirmation-matched_example :
    (contains (value b2_up b2_up_ok).matched "intraday_trigger_breakout"
      ≡ (trigger.trigger_price ≤𝔻 day_up.current.high))
    × (contains (value b2_up b2_up_ok).matched "close_holds_trigger"
        ≡ (trigger.trigger_price ≤𝔻 day_up.current.close))
evaluate_b2_confirmation-matched_example =
    evaluate_b2_confirmation-matched day_up.ordered day_up.indicators day_up.current day_up.anchor
      trigger config (value b2_up b2_up_ok) (is_ok-value _ b2_up_ok)

unfoldable pub decision_on : Day → Option StrategySignal → Outcome Decision
decision_on d previous = do
  levels ← day_levels config d.as_of d.ordered d.indicators d.current d.anchor (frozen_of previous)
  decide config d.as_of d.ordered d.indicators d.current d.anchor previous
      (setup_of flat_ranking config d) levels

pub decision_ok : is_ok (decision_on day_up (some on_five)) ≡ true
unfolding engine day_on value decision_on
decision_ok = refl

abbrev pub decision : Decision
decision = value (decision_on day_up (some on_five)) decision_ok

reward_ok :
    is_ok (signal_reward decision.stage day_up.current (published decision.stage decision.frozen))
    ≡ true
unfolding engine day_on value decision_on
reward_ok = refl

signal_of-check_review_example :
    check_review (
      signal_of config 739806 day_up.current ScoreProfile.price_only decision [] [] on_up.score
        no_entry_room
        (value
          (signal_reward decision.stage day_up.current (published decision.stage decision.frozen))
          reward_ok))
    ≡ true
signal_of-check_review_example =
    signal_of-check_review config 739806 day_up.current ScoreProfile.price_only decision [] []
      on_up.score no_entry_room _ (is_ok-value _ reward_ok)
