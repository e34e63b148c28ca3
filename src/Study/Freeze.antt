-- ===== src/Study/Freeze.antt =====
-- outcome.py, `_freeze_event`: the event of a signal and its plan. Its hash is a parameter, a text
-- of the event whose own hash is still `"pending"`.
use a_share_limit_pullback.Base.{ℕ, ◌&&◌, String, Option}
use mathlib.Core.Option
use a_share_limit_pullback.Models.Enums.{DataQuality}
use a_share_limit_pullback.Models.Score.{normalized_score}
use a_share_limit_pullback.Models.Signal.{StrategySignal, is_entry_candidate}
use a_share_limit_pullback.Models.TradePlan.{TradePlan}
use a_share_limit_pullback.Study.Event.{FrozenEvent}

-- `data_quality.value`
abbrev pub quality_value : DataQuality → String
quality_value DataQuality.ok = "OK"
quality_value DataQuality.partial = "PARTIAL"
quality_value DataQuality.degraded = "DEGRADED"
quality_value DataQuality.unusable = "UNUSABLE"

-- The provenance of a study.
pub record StudyProvenance : Type 0 where
  pub snapshot_id : String
  pub strategy_commit : String
  pub strategy_config_hash : String
  pub trade_plan_config_hash : String
  pub outcome_config_hash : String
  pub snapshot_created_at : Option ℕ

unfoldable pub pending_event : StrategySignal → TradePlan → StudyProvenance → FrozenEvent
unfolding is_entry_candidate normalized_score
pending_event signal plan provenance = record {
  code = signal.code;
  setup_id = signal.setup_id;
  execution_label = plan.execution_label;
  setup_stage = signal.setup_stage;
  signal_date = signal.trade_date;
  anchor_date = Option.map (λ a. a.anchor_date) signal.anchor;
  anchor_price = Option.map (λ a. a.anchor_price) signal.anchor;
  support_low = Option.map (λ s. s.support_low) signal.support;
  support_high = Option.map (λ s. s.support_high) signal.support;
  support_center = Option.map (λ s. s.support_center) signal.support;
  b2_trigger_price = Option.map (λ t. t.trigger_price) signal.b2_trigger;
  setup_quality_score = normalized_score signal.score;
  entry_quality_score = signal.entry_quality_score;
  days_since_anchor = plan.days_since_anchor;
  entry_room_state = signal.entry_room_state;
  is_entry_candidate = is_entry_candidate signal && plan.is_actionable;
  preferred_entry = plan.preferred_entry;
  buy_zone_low = plan.buy_zone_low;
  buy_zone_high = plan.buy_zone_high;
  invalid_price = plan.invalid_price;
  s1_price = plan.s1_price;
  entry_reference_price = signal.entry_reference_price;
  data_quality = quality_value signal.data_quality;
  quality_flags = signal.quality_flags;
  snapshot_id = provenance.snapshot_id;
  strategy_commit = provenance.strategy_commit;
  strategy_config_hash = provenance.strategy_config_hash;
  trade_plan_config_hash = provenance.trade_plan_config_hash;
  outcome_config_hash = provenance.outcome_config_hash;
  frozen_event_hash = "pending";
  raw_signal_days = 1;
  snapshot_created_at = provenance.snapshot_created_at;
}

unfoldable pub freeze_event :
    (FrozenEvent → String) → StrategySignal → TradePlan → StudyProvenance → FrozenEvent
unfolding pending_event
freeze_event hash_of signal plan provenance =
    let event = pending_event signal plan provenance in
    record event { frozen_event_hash = hash_of event }
