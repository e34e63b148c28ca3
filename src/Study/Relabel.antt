-- ===== src/Study/Relabel.antt =====
-- outcome.py: an episode whose outcome is computed again from its frozen event
-- (`_frozen_event_from_episode`, `_relabel_frozen_event`, `relabel_frozen_episodes`).
use a_share_limit_pullback.Base.{
  ℕ, ◌+◌, Bool, true, false, not, ◌||◌, String, str_eq, names_eq, Option, none, some, List, [], ◌∷◌,
  ◌==◌, if◌then◌else◌, keep, is_empty, Outcome, ok, raise_if, or_raise, missing_bars,
  frozen_field_changed, ◌>>=◌, ◌>>◌,
}
use a_share_limit_pullback.Decimal.{Decimal, ◌=𝔻◌}
use a_share_limit_pullback.Models.Enums.{SetupStage, EntryRoomState}
use a_share_limit_pullback.Models.Labels.{
  ExecutionLabel, FillStatus, FillType, OutcomeStatus, PatternOutcome, label_is_b2_ready,
}
use a_share_limit_pullback.Models.Market.{DailyBar}
use a_share_limit_pullback.Models.Outcome.{OutcomeEpisode, OutcomeStudyConfig}
use a_share_limit_pullback.Study.Complete.{complete_event}
use a_share_limit_pullback.Study.Event.{FrozenEvent}

unfoldable pub frozen_event_from_episode : OutcomeEpisode → FrozenEvent
frozen_event_from_episode event = record {
  code = event.code;
  setup_id = event.setup_id;
  execution_label = event.execution_label;
  setup_stage = event.setup_stage;
  signal_date = event.signal_date;
  anchor_date = event.anchor_date;
  anchor_price = event.anchor_price;
  support_low = event.support_low;
  support_high = event.support_high;
  support_center = event.support_center;
  b2_trigger_price = event.b2_trigger_price;
  setup_quality_score = event.setup_quality_score;
  entry_quality_score = event.entry_quality_score;
  days_since_anchor = event.days_since_anchor;
  entry_room_state = event.entry_room_state;
  is_entry_candidate = event.is_entry_candidate;
  preferred_entry = event.preferred_entry;
  buy_zone_low = event.buy_zone_low;
  buy_zone_high = event.buy_zone_high;
  invalid_price = event.invalid_price;
  s1_price = event.s1_price;
  entry_reference_price = event.entry_reference_price;
  data_quality = event.data_quality;
  quality_flags = event.quality_flags;
  snapshot_id = event.snapshot_id;
  strategy_commit = event.strategy_commit;
  strategy_config_hash = event.strategy_config_hash;
  trade_plan_config_hash = event.trade_plan_config_hash;
  outcome_config_hash = event.outcome_config_hash;
  frozen_event_hash = event.frozen_event_hash;
  raw_signal_days = event.raw_signal_days;
  snapshot_created_at = event.snapshot_created_at;
}

-- Equality of the fields' values: of the texts of an enumeration by their place in it.
abbrev pub option_eq : {A : Type 0} → (A → A → Bool) → Option A → Option A → Bool
option_eq same none none = true
option_eq same (some a) (some b) = same a b
option_eq same _ _ = false

abbrev pub same_flag : Bool → Bool → Bool
same_flag true b = b
same_flag false b = not b

abbrev pub same_number : ℕ → ℕ → Bool
same_number a b = a == b

abbrev pub same_decimal : Decimal → Decimal → Bool
same_decimal a b = a =𝔻 b

abbrev label_rank : ExecutionLabel → ℕ
label_rank ExecutionLabel.b1_prep = 0
label_rank ExecutionLabel.b1_ready = 1
label_rank ExecutionLabel.b2_ready = 2
label_rank ExecutionLabel.b2_confirmed = 3
label_rank ExecutionLabel.watch_only = 4

abbrev pub label_eq : ExecutionLabel → ExecutionLabel → Bool
label_eq a b = label_rank a == label_rank b

abbrev stage_rank : SetupStage → ℕ
stage_rank SetupStage.normal = 0
stage_rank SetupStage.limit_anchor = 1
stage_rank SetupStage.watch_pullback = 2
stage_rank SetupStage.b1_ready = 3
stage_rank SetupStage.b2_ready = 4
stage_rank SetupStage.b2_confirmed = 5
stage_rank SetupStage.invalid = 6

abbrev pub stage_eq : SetupStage → SetupStage → Bool
stage_eq a b = stage_rank a == stage_rank b

abbrev room_rank : EntryRoomState → ℕ
room_rank EntryRoomState.sufficient = 0
room_rank EntryRoomState.thin = 1
room_rank EntryRoomState.none = 2
room_rank EntryRoomState.open_space = 3

abbrev pub room_eq : EntryRoomState → EntryRoomState → Bool
room_eq a b = room_rank a == room_rank b

abbrev pattern_rank : PatternOutcome → ℕ
pattern_rank PatternOutcome.s1_before_invalid = 0
pattern_rank PatternOutcome.invalid_before_s1 = 1
pattern_rank PatternOutcome.neither = 2
pattern_rank PatternOutcome.ambiguous = 3
pattern_rank PatternOutcome.censored = 4

abbrev pub pattern_eq : PatternOutcome → PatternOutcome → Bool
pattern_eq a b = pattern_rank a == pattern_rank b

abbrev status_rank : OutcomeStatus → ℕ
status_rank OutcomeStatus.no_fill = 0
status_rank OutcomeStatus.cancel_gap_invalid = 1
status_rank OutcomeStatus.win_s1 = 2
status_rank OutcomeStatus.loss_invalid = 3
status_rank OutcomeStatus.timeout = 4
status_rank OutcomeStatus.ambiguous_intraday = 5
status_rank OutcomeStatus.censored = 6

abbrev pub status_eq : OutcomeStatus → OutcomeStatus → Bool
status_eq a b = status_rank a == status_rank b

abbrev fill_status_rank : FillStatus → ℕ
fill_status_rank FillStatus.no_fill = 0
fill_status_rank FillStatus.cancel_gap_invalid = 1
fill_status_rank FillStatus.filled = 2
fill_status_rank FillStatus.censored = 3

abbrev pub fill_status_eq : FillStatus → FillStatus → Bool
fill_status_eq a b = fill_status_rank a == fill_status_rank b

abbrev fill_type_rank : FillType → ℕ
fill_type_rank FillType.none = 0
fill_type_rank FillType.open_fill = 1
fill_type_rank FillType.intraday_touch_fill = 2
fill_type_rank FillType.breakout_gap_fill = 3
fill_type_rank FillType.breakout_trigger_fill = 4

abbrev pub fill_type_eq : FillType → FillType → Bool
fill_type_eq a b = fill_type_rank a == fill_type_rank b

-- each field that a relabelling must keep, and whether it is the same in the two episodes
unfoldable pub frozen_fields : OutcomeEpisode → OutcomeEpisode → List (String × Bool)
frozen_fields x y =
    ("code", str_eq x.code y.code)
    ∷ ("setup_id", str_eq x.setup_id y.setup_id)
    ∷ ("execution_label", label_eq x.execution_label y.execution_label)
    ∷ ("setup_stage", stage_eq x.setup_stage y.setup_stage)
    ∷ ("signal_date", x.signal_date == y.signal_date)
    ∷ ("anchor_date", option_eq same_number x.anchor_date y.anchor_date)
    ∷ ("anchor_price", option_eq same_decimal x.anchor_price y.anchor_price)
    ∷ ("support_low", option_eq same_decimal x.support_low y.support_low)
    ∷ ("support_high", option_eq same_decimal x.support_high y.support_high)
    ∷ ("support_center", option_eq same_decimal x.support_center y.support_center)
    ∷ ("b2_trigger_price", option_eq same_decimal x.b2_trigger_price y.b2_trigger_price)
    ∷ ("setup_quality_score", x.setup_quality_score =𝔻 y.setup_quality_score)
    ∷ ("entry_quality_score", option_eq same_decimal x.entry_quality_score y.entry_quality_score)
    ∷ ("days_since_anchor", option_eq same_number x.days_since_anchor y.days_since_anchor)
    ∷ ("entry_room_state", option_eq room_eq x.entry_room_state y.entry_room_state)
    ∷ ("is_entry_candidate", same_flag x.is_entry_candidate y.is_entry_candidate)
    ∷ ("preferred_entry", option_eq same_decimal x.preferred_entry y.preferred_entry)
    ∷ ("buy_zone_low", option_eq same_decimal x.buy_zone_low y.buy_zone_low)
    ∷ ("buy_zone_high", option_eq same_decimal x.buy_zone_high y.buy_zone_high)
    ∷ ("invalid_price", option_eq same_decimal x.invalid_price y.invalid_price)
    ∷ ("s1_price", option_eq same_decimal x.s1_price y.s1_price)
    ∷ (
      "entry_reference_price",
      option_eq same_decimal x.entry_reference_price y.entry_reference_price,
    )
    ∷ ("next_trade_date", option_eq same_number x.next_trade_date y.next_trade_date)
    ∷ ("future_sessions_available", x.future_sessions_available == y.future_sessions_available)
    ∷ ("pattern_1d", option_eq pattern_eq x.pattern_1d y.pattern_1d)
    ∷ ("pattern_3d", option_eq pattern_eq x.pattern_3d y.pattern_3d)
    ∷ ("pattern_5d", option_eq pattern_eq x.pattern_5d y.pattern_5d)
    ∷ ("pattern_10d", option_eq pattern_eq x.pattern_10d y.pattern_10d)
    ∷ ("prep_conversion_1d", option_eq same_flag x.prep_conversion_1d y.prep_conversion_1d)
    ∷ ("prep_conversion_3d", option_eq same_flag x.prep_conversion_3d y.prep_conversion_3d)
    ∷ ("prep_conversion_5d", option_eq same_flag x.prep_conversion_5d y.prep_conversion_5d)
    ∷ ("prep_mfe_1d", option_eq same_decimal x.prep_mfe_1d y.prep_mfe_1d)
    ∷ ("prep_mfe_3d", option_eq same_decimal x.prep_mfe_3d y.prep_mfe_3d)
    ∷ ("prep_mfe_5d", option_eq same_decimal x.prep_mfe_5d y.prep_mfe_5d)
    ∷ ("prep_mae_1d", option_eq same_decimal x.prep_mae_1d y.prep_mae_1d)
    ∷ ("prep_mae_3d", option_eq same_decimal x.prep_mae_3d y.prep_mae_3d)
    ∷ ("prep_mae_5d", option_eq same_decimal x.prep_mae_5d y.prep_mae_5d)
    ∷ ("raw_signal_days", x.raw_signal_days == y.raw_signal_days)
    ∷ ("data_quality", str_eq x.data_quality y.data_quality)
    ∷ ("quality_flags", names_eq x.quality_flags y.quality_flags)
    ∷ ("snapshot_id", str_eq x.snapshot_id y.snapshot_id)
    ∷ ("snapshot_created_at", option_eq same_number x.snapshot_created_at y.snapshot_created_at)
    ∷ ("strategy_commit", str_eq x.strategy_commit y.strategy_commit)
    ∷ ("strategy_config_hash", str_eq x.strategy_config_hash y.strategy_config_hash)
    ∷ ("trade_plan_config_hash", str_eq x.trade_plan_config_hash y.trade_plan_config_hash)
    ∷ ("outcome_config_hash", str_eq x.outcome_config_hash y.outcome_config_hash)
    ∷ ("frozen_event_hash", str_eq x.frozen_event_hash y.frozen_event_hash)
    ∷ []

abbrev pub changed : List (String × Bool) → List (String × Bool)
changed = keep (λ f. not f.1)

unfoldable pub relabel_frozen_event :
    (String → String) → OutcomeEpisode → List DailyBar → OutcomeStudyConfig → Outcome OutcomeEpisode
unfolding frozen_event_from_episode frozen_fields
relabel_frozen_event strip event bars config =
    if not (label_is_b2_ready event.execution_label) then ok event else do
      corrected ← complete_event strip (frozen_event_from_episode event) bars config
      raise_if (not (is_empty (changed (frozen_fields event corrected)))) frozen_field_changed
      ok corrected

-- whether one of the fields that may change has changed
unfoldable pub is_relabelled : OutcomeEpisode → OutcomeEpisode → Bool
is_relabelled x y =
    not (fill_status_eq x.fill_status y.fill_status)
    || not (fill_type_eq x.fill_type y.fill_type)
    || not (option_eq same_number x.fill_date y.fill_date)
    || not (option_eq same_decimal x.fill_price y.fill_price)
    || not (status_eq x.outcome y.outcome)
    || not (option_eq same_number x.resolution_date y.resolution_date)
    || not (option_eq same_decimal x.exit_price y.exit_price)
    || not (option_eq same_decimal x.r_multiple y.r_multiple)
    || not (option_eq same_decimal x.conservative_r_multiple y.conservative_r_multiple)
    || not (option_eq same_decimal x.mfe_pct y.mfe_pct)
    || not (option_eq same_decimal x.mae_pct y.mae_pct)
    || not (option_eq same_number x.holding_sessions_to_resolution y.holding_sessions_to_resolution)
    || not (option_eq str_eq x.eligibility_reason y.eligibility_reason)

-- `bars_by_code[code]`
unfoldable pub bars_of : String → List (String × List DailyBar) → Option (List DailyBar)
bars_of code [] = none
bars_of code ((c, bars) ∷ rest) = if str_eq c code then some bars else bars_of code rest

unfoldable pub relabel_one :
    (String → String)
    → List (String × List DailyBar)
    → OutcomeStudyConfig
    → OutcomeEpisode
    → Outcome OutcomeEpisode
unfolding bars_of relabel_frozen_event
relabel_one strip bars_by_code config event =
    if not (label_is_b2_ready event.execution_label) then ok event else do
      bars ← or_raise (bars_of event.code bars_by_code) missing_bars
      relabel_frozen_event strip event bars config

-- the episodes and the number of the changed ones
unfoldable pub relabel_frozen_episodes :
    (String → String)
    → List (String × List DailyBar)
    → OutcomeStudyConfig
    → List OutcomeEpisode
    → Outcome (List OutcomeEpisode × ℕ)
unfolding relabel_one is_relabelled
relabel_frozen_episodes strip bars_by_code config [] = ok ([], 0)
relabel_frozen_episodes strip bars_by_code config (event ∷ events) = do
  updated ← relabel_one strip bars_by_code config event
  rest ← relabel_frozen_episodes strip bars_by_code config events
  ok (updated ∷ rest.0, if is_relabelled event updated then rest.1 + 1 else rest.1)
