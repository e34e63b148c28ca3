-- ===== src/Models/Outcome.antt =====
-- models/outcome.py: the configuration of the outcome study and its episodes.
use a_share_limit_pullback.Base.{
  ℕ, Bool, true, not, ◌&&◌, String, str_eq, Option, none, some, List, [], ◌∷◌, leb, ltb,
  if◌then◌else◌, Outcome, ok, raise_if, ◌>>◌, horizons_not_sorted, no_horizon, holding_too_short,
  validation,
}
use a_share_limit_pullback.Dates.{Date}
use a_share_limit_pullback.Decimal.{Decimal}
use a_share_limit_pullback.Models.Codes.{is_code}
use a_share_limit_pullback.Models.Enums.{SetupStage, EntryRoomState}
use a_share_limit_pullback.Models.Labels.{
  ExecutionLabel, OutcomeStatus, FillStatus, FillType, PatternOutcome,
}
use a_share_limit_pullback.Models.Snapshots.{positive_or_none}

pub record OutcomeStudyConfig : Type 0 where
  pub forward_horizons : List ℕ
  pub max_holding_sessions : ℕ

-- `tuple(sorted(set(l))) == l`
abbrev pub is_increasing : List ℕ → Bool
is_increasing [] = true
is_increasing (x ∷ []) = true
is_increasing (x ∷ y ∷ ys) = ltb x y && is_increasing (y ∷ ys)

-- `max` of a sequence with the first value `x`
abbrev pub largest_of : ℕ → List ℕ → ℕ
largest_of x [] = x
largest_of x (y ∷ ys) = largest_of (if leb x y then y else x) ys

abbrev covers_all : ℕ → List ℕ → Outcome (Unit {0})
covers_all sessions [] = raise_if true no_horizon
covers_all sessions (h ∷ hs) = raise_if (ltb sessions (largest_of h hs)) holding_too_short

unfoldable pub from_payload : OutcomeStudyConfig → Outcome OutcomeStudyConfig
from_payload config = do
  raise_if (not (leb 1 config.max_holding_sessions)) (validation "OutcomeStudyConfig")
  raise_if (not (is_increasing config.forward_horizons)) horizons_not_sorted
  covers_all config.max_holding_sessions config.forward_horizons
  ok config

pub record OutcomeEpisode : Type 0 where
  pub code : String
  pub setup_id : String
  pub execution_label : ExecutionLabel
  pub setup_stage : SetupStage
  pub signal_date : Date
  pub anchor_date : Option Date
  pub anchor_price : Option Decimal
  pub support_low : Option Decimal
  pub support_high : Option Decimal
  pub support_center : Option Decimal
  pub b2_trigger_price : Option Decimal
  pub setup_quality_score : Decimal
  pub entry_quality_score : Option Decimal
  pub days_since_anchor : Option ℕ
  pub entry_room_state : Option EntryRoomState
  pub is_entry_candidate : Bool
  pub preferred_entry : Option Decimal
  pub buy_zone_low : Option Decimal
  pub buy_zone_high : Option Decimal
  pub invalid_price : Option Decimal
  pub s1_price : Option Decimal
  pub entry_reference_price : Option Decimal
  pub next_trade_date : Option Date
  pub fill_status : FillStatus
  pub fill_type : FillType
  pub fill_date : Option Date
  pub fill_price : Option Decimal
  pub outcome : OutcomeStatus
  pub resolution_date : Option Date
  pub exit_price : Option Decimal
  pub r_multiple : Option Decimal
  pub conservative_r_multiple : Option Decimal
  pub mfe_pct : Option Decimal
  pub mae_pct : Option Decimal
  pub holding_sessions_to_resolution : Option ℕ
  pub future_sessions_available : ℕ
  pub eligibility_reason : Option String
  pub pattern_1d : Option PatternOutcome
  pub pattern_3d : Option PatternOutcome
  pub pattern_5d : Option PatternOutcome
  pub pattern_10d : Option PatternOutcome
  pub prep_conversion_1d : Option Bool
  pub prep_conversion_3d : Option Bool
  pub prep_conversion_5d : Option Bool
  pub prep_mfe_1d : Option Decimal
  pub prep_mfe_3d : Option Decimal
  pub prep_mfe_5d : Option Decimal
  pub prep_mae_1d : Option Decimal
  pub prep_mae_3d : Option Decimal
  pub prep_mae_5d : Option Decimal
  pub raw_signal_days : ℕ
  pub data_quality : String
  pub quality_flags : List String
  pub snapshot_id : String
  pub snapshot_created_at : Option ℕ
  pub strategy_commit : String
  pub strategy_config_hash : String
  pub trade_plan_config_hash : String
  pub outcome_config_hash : String
  pub frozen_event_hash : String

abbrev not_blank : String → Bool
not_blank s = not (str_eq s "")

abbrev pub one_or_more : Option ℕ → Bool
one_or_more none = true
one_or_more (some n) = leb 1 n

-- The bounds of the fields that the study sets, and of those that it copies.
unfoldable pub validate_labels : OutcomeEpisode → Bool
validate_labels e =
    positive_or_none e.fill_price
    && positive_or_none e.exit_price
    && one_or_more e.holding_sessions_to_resolution

unfoldable pub validate_copied : OutcomeEpisode → Bool
validate_copied e =
    is_code e.code
    && positive_or_none e.anchor_price
    && positive_or_none e.support_low
    && positive_or_none e.support_high
    && positive_or_none e.support_center
    && positive_or_none e.b2_trigger_price
    && positive_or_none e.preferred_entry
    && positive_or_none e.buy_zone_low
    && positive_or_none e.buy_zone_high
    && positive_or_none e.entry_reference_price
    && leb 1 e.raw_signal_days
    && not_blank e.setup_id
    && not_blank e.snapshot_id
    && not_blank e.strategy_commit
    && not_blank e.strategy_config_hash
    && not_blank e.trade_plan_config_hash
    && not_blank e.outcome_config_hash
    && not_blank e.frozen_event_hash

unfoldable pub validate_frozen : OutcomeEpisode → Bool
unfolding validate_copied
validate_frozen e =
    (positive_or_none e.s1_price && positive_or_none e.invalid_price) && validate_copied e

unfoldable pub validate_episode : OutcomeEpisode → Bool
unfolding validate_frozen validate_labels
validate_episode e = validate_frozen e && validate_labels e

pub record OutcomeStats : Type 0 where
  pub episodes : ℕ
  pub raw_signal_days : ℕ
  pub eligible : ℕ
  pub no_fill : ℕ
  pub cancel_gap_invalid : ℕ
  pub filled : ℕ
  pub resolved : ℕ
  pub wins : ℕ
  pub losses : ℕ
  pub ambiguous : ℕ
  pub timeout : ℕ
  pub censored : ℕ
  pub fill_rate : Decimal
  pub strict_win_rate : Decimal
  pub conservative_win_rate : Decimal
  pub strict_resolved : ℕ
  pub conservative_resolved : ℕ
  pub strict_resolved_expectancy_r : Option Decimal
  pub conservative_resolved_expectancy_r : Option Decimal
  pub strict_average_r : Option Decimal
  pub conservative_average_r : Option Decimal
  pub average_win_r : Option Decimal
  pub average_loss_r : Option Decimal
  pub average_r : Option Decimal
  pub expectancy_r : Option Decimal
  pub median_r : Option Decimal
  pub median_mfe : Option Decimal
  pub median_mae : Option Decimal
  pub median_holding_sessions : Option Decimal
