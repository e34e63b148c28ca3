-- ===== src/State/Decide.antt =====
-- state/engine.py, the middle of `evaluate_strategy`: from the levels of the day to the stage of the
-- setup and what it freezes.
pub mod Parts
pub mod Stages
pub mod Fits
pub mod Coherence
pub mod First
use a_share_limit_pullback.Base.{
  ℕ, Bool, not, String, Option, none, some, List, ◌==◌, is_empty, is_some, Outcome, ok, ◌>>=◌,
}
use a_share_limit_pullback.Dates.{Date}
use a_share_limit_pullback.Models.Config.{StrategyConfig}
use a_share_limit_pullback.Models.Enums.{SetupStage}
use a_share_limit_pullback.Models.Market.{DailyBar}
use a_share_limit_pullback.Models.Signal.{StrategySignal}
use a_share_limit_pullback.Models.Snapshots.{AnchorSnapshot}
use a_share_limit_pullback.Models.Strategy.{
  AnchorEvaluation, ConditionScore, IndicatorPoint, PatternEvaluation,
}
use a_share_limit_pullback.Patterns.Evaluation.{evaluate_patterns}
use a_share_limit_pullback.State.Confirm.{evaluate_b1}
use a_share_limit_pullback.State.Frozen.{frozen_of, frozen_after}
use a_share_limit_pullback.State.Levels.{DayLevels, proposal_of}
use a_share_limit_pullback.State.Publish.{Decision}
use a_share_limit_pullback.State.Transition.{
  is_ready_for_b1, prior_trigger, b2_check, current_reasons, all_reasons, was_b1_ready, next_stage,
  freezes_trigger, trigger_after,
}

abbrev pub anchor_snapshot_of : AnchorEvaluation → Option StrategySignal → AnchorSnapshot
anchor_snapshot_of anchor none = anchor.snapshot
anchor_snapshot_of anchor (some s) = elim s.anchor [ none ↦ anchor.snapshot | some a ↦ a ]

module _ (config : StrategyConfig) (as_of : Date) (ordered : List DailyBar)
    (indicators : List IndicatorPoint) (current : DailyBar) (anchor : AnchorEvaluation)
    (previous_same : Option StrategySignal) (setup_id : String) where
  abbrev pub on_anchor_day : Bool
  on_anchor_day = current.trade_date == anchor.snapshot.anchor_date

  -- `invalid`, from the reasons of the day
  abbrev pub is_invalidated : List String → Bool
  is_invalidated today = not (is_empty (all_reasons previous_same today))

  abbrev pub stage_of : DayLevels → ConditionScore → Bool → List String → SetupStage
  stage_of levels b1 confirmed today =
      next_stage (is_invalidated today) on_anchor_day confirmed
        (is_some (prior_trigger previous_same)) (was_b1_ready previous_same)
        (is_ready_for_b1 config levels b1)

  -- the stage, the trigger and the frozen levels
  unfoldable pub settle :
      DayLevels
      → PatternEvaluation
      → ConditionScore
      → Option ConditionScore × Bool
      → List String
      → Outcome Decision
  settle levels patterns b1 b2 today = do
    let prior = prior_trigger previous_same
    let stage = stage_of levels b1 b2.1 today
    trigger ←
        trigger_after
          (freezes_trigger (is_invalidated today) on_anchor_day b2.1 (is_some prior)
            (was_b1_ready previous_same))
          prior ordered as_of config
    frozen ← frozen_after as_of config current stage (frozen_of previous_same) (proposal_of levels)
    ok (record {
      setup_id = setup_id;
      stage = stage;
      trigger = trigger;
      frozen = frozen;
      anchor_snapshot = anchor_snapshot_of anchor previous_same;
      patterns = patterns;
      b1_conditions = b1;
      b2_conditions = b2.0;
      invalidation_reasons = all_reasons previous_same today;
    })

  unfoldable pub decide : DayLevels → Outcome Decision
  decide levels = do
    patterns ← evaluate_patterns ordered indicators anchor levels.setup_support as_of config
    b1 ← evaluate_b1 ordered indicators current anchor levels.setup_support config
    b2 ← b2_check config as_of ordered indicators current anchor (prior_trigger previous_same)
    today ←
        current_reasons config as_of ordered indicators current anchor levels
          levels.eligible_support levels.eligible_invalid_snapshot
    settle levels patterns b1 b2 today
