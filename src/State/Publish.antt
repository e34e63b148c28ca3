-- ===== src/State/Publish.antt =====
-- state/engine.py: the signal of a day, from the stage and the frozen levels.
pub mod Checks
pub mod Room
use a_share_limit_pullback.Base.{
  ◌&&◌, ◌||◌, String, Option, none, some, List, [], ◌∷◌, ◌++◌, if◌then◌else◌, is_none, sorted,
  distinct, Outcome, ok, checked, ◌>>=◌,
}
use a_share_limit_pullback.Decimal.{Decimal, ◌<𝔻◌, ◌/𝔻◌}
use a_share_limit_pullback.Dates.{Date}
use a_share_limit_pullback.Models.Config.{StrategyConfig}
use a_share_limit_pullback.Models.Enums.{
  SetupStage, EventFlag, ReviewGroup, DataQuality, EntryRoomState, ScoreProfile, is_actionable,
  is_invalid, is_price_only,
}
use a_share_limit_pullback.Models.Market.{DailyBar}
use a_share_limit_pullback.Models.Score.{
  ScoreBreakdown, available_max_score, normalized_score, set_risk,
}
use a_share_limit_pullback.Models.Signal.{StrategySignal, validate_signal_invariants}
use a_share_limit_pullback.Models.Snapshots.{
  AnchorSnapshot, B2TriggerSnapshot, InvalidPriceSnapshot, S1Snapshot,
}
use a_share_limit_pullback.Models.Strategy.{ConditionScore, PatternEvaluation, validate_cluster}
use a_share_limit_pullback.State.Entry.{EntryRoom, entry_room, risk_reward, entry_quality_score}
use a_share_limit_pullback.State.Frozen.{FrozenLevels, nothing_frozen}
use a_share_limit_pullback.State.Identity.{as_s1_cluster}

-- what the engine has decided about the day, before the score
pub record Decision : Type 0 where
  pub setup_id : String
  pub stage : SetupStage
  pub trigger : Option B2TriggerSnapshot
  pub frozen : FrozenLevels
  pub anchor_snapshot : AnchorSnapshot
  pub patterns : PatternEvaluation
  pub b1_conditions : ConditionScore
  pub b2_conditions : Option ConditionScore
  pub invalidation_reasons : List String

-- the snapshots of a signal: `frozen_… if stage in ACTIONABLE | {SetupStage.INVALID} else None`
unfoldable pub published : SetupStage → FrozenLevels → FrozenLevels
published stage frozen = if is_actionable stage || is_invalid stage then frozen else nothing_frozen

abbrev pub invalid_price_of : (InvalidPriceSnapshot → Decimal) → FrozenLevels → Option Decimal
invalid_price_of price levels = elim levels.invalid_snapshot [
  | none ↦ none
  | some s ↦ some (price s)
]

unfoldable pub review_group_of : SetupStage → FrozenLevels → ReviewGroup
review_group_of stage levels =
    if is_actionable stage && is_none levels.target_s1
    then ReviewGroup.open_space
    else ReviewGroup.standard

reward_of : Decimal → Option Decimal → Option S1Snapshot → Outcome (Option Decimal)
reward_of close (some invalid_price) (some target) = do
  cluster ← checked "PriceCluster" validate_cluster (as_s1_cluster target)
  ok (risk_reward close invalid_price (some cluster))
reward_of close _ _ = ok none

-- `risk_reward`; for an OPEN_SPACE setup there is no target, so none
unfoldable pub signal_reward : SetupStage → DailyBar → FrozenLevels → Outcome (Option Decimal)
unfolding reward_of
signal_reward stage current levels =
    reward_of current.close (invalid_price_of (λ s. s.invalid_price) levels) levels.target_s1

abbrev quality_of : ScoreProfile → DataQuality
quality_of profile = if is_price_only profile then DataQuality.partial else DataQuality.ok

-- `data_quality` and `base_flags`
unfoldable pub data_quality_of :
    StrategyConfig → ScoreProfile → ScoreBreakdown → DataQuality × List String
data_quality_of config profile score =
    let coverage = available_max_score score /𝔻 score.profile_max_score in
    let is_low = coverage <𝔻 config.quality.minimum_score_coverage in
    let inferred = if is_price_only profile then config.quality.inferred_anchor_flag ∷ [] else [] in
    let low_flag = if is_low then "LOW_SCORE_COVERAGE" ∷ [] else [] in
    (
      if is_low then DataQuality.degraded else quality_of profile,
      sorted (distinct (score.quality_flags ++ inferred ++ low_flag)),
    )

room_risk : Option EntryRoomState → Option String
room_risk (some EntryRoomState.thin) = some "目标压力前剩余空间偏薄"
room_risk (some EntryRoomState.none) = some "目标压力已无新建仓剩余空间"
room_risk (some EntryRoomState.open_space) = some "缺少可靠target S1，需单独人工复核"
room_risk _ = none

-- `score.model_copy(update={"risks": …})`
unfoldable pub with_room_risk : Option EntryRoomState → ScoreBreakdown → ScoreBreakdown
unfolding room_risk
with_room_risk state score = elim (room_risk state) [
  | none ↦ score
  | some text ↦ record score { risks = set_risk "entry_room" text score.risks }
]

module _ (config : StrategyConfig) (as_of : Date) (current : DailyBar) (profile : ScoreProfile)
    (d : Decision) (flags : List EventFlag) (reasons : List (EventFlag × List String))
    (score : ScoreBreakdown) where
  unfoldable pub signal_of : EntryRoom → Option Decimal → StrategySignal
  signal_of room ratio =
      let levels = published d.stage d.frozen in
      let quality = data_quality_of config profile score in
      record {
        strategy_version = config.strategy_version;
        setup_id = d.setup_id;
        trade_date = as_of;
        code = current.code;
        setup_stage = d.stage;
        patterns = some d.patterns;
        b1_conditions = some d.b1_conditions;
        b2_conditions = d.b2_conditions;
        event_flags = flags;
        event_reasons = reasons;
        review_group = review_group_of d.stage levels;
        data_quality = quality.0;
        quality_flags = quality.1;
        score = with_room_risk room.state score;
        anchor = some d.anchor_snapshot;
        support = levels.support;
        invalid_price_snapshot = levels.invalid_snapshot;
        initial_invalid_price = invalid_price_of (λ s. s.initial_invalid_price) levels;
        invalid_price = invalid_price_of (λ s. s.invalid_price) levels;
        b2_trigger = d.trigger;
        expected_b2_trigger_price = levels.expected_b2_trigger;
        resistance_candidates = levels.resistance_candidates;
        immediate_resistance = levels.immediate_resistance;
        target_s1 = levels.target_s1;
        entry_reference_price = room.reference;
        entry_headroom_pct = room.headroom;
        entry_room_state = room.state;
        entry_room_reasons = room.reasons;
        risk_reward_ratio = ratio;
        entry_quality_score =
            entry_quality_score (normalized_score score) d.stage quality.0 flags room ratio config;
        invalidation_reasons = d.invalidation_reasons;
      }

  unfoldable pub publish : Outcome StrategySignal
  publish = do
    let levels = published d.stage d.frozen
    ratio ← signal_reward d.stage current levels
    room ← entry_room d.stage current.close d.trigger levels.target_s1 config
    checked "StrategySignal" validate_signal_invariants (signal_of room ratio)
