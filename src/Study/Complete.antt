-- ===== src/Study/Complete.antt =====
-- outcome.py, `_complete_event`: a frozen event and the bars of its code give an episode.
use a_share_limit_pullback.Base.{
  ℕ, Bool, String, Option, none, some, List, [], ◌∷◌, ◌==◌, map, any, if◌then◌else◌, get_elem?,
  length, Outcome, ok, raised, checked, no_reward_room, ◌>>=◌,
}
use mathlib.Core.Option
use a_share_limit_pullback.Dates.{Date}
use a_share_limit_pullback.Decimal.{Decimal, nought, ◌≤𝔻◌, ◌<𝔻◌, ◌-𝔻◌, ◌/𝔻◌}
use a_share_limit_pullback.Models.Labels.{
  FillStatus, FillType, OutcomeStatus, PatternOutcome, is_win, label_is_b1_prep, label_is_b2_ready,
}
use a_share_limit_pullback.Models.Market.{DailyBar}
use a_share_limit_pullback.Models.Outcome.{OutcomeEpisode, OutcomeStudyConfig, validate_episode}
use a_share_limit_pullback.Study.Barriers.{Resolution, apply_mfe_mae, pattern_result, quantized}
use a_share_limit_pullback.Study.Event.{FrozenEvent, future_of}
use a_share_limit_pullback.Study.Fill.{Plan, missed, filled_at, entry_of, resolve}

-- The fields of an episode that one branch sets.
pub record Labels : Type 0 where
  pub fill_status : FillStatus
  pub fill_type : FillType
  pub fill_date : Option Date
  pub fill_price : Option Decimal
  pub outcome : OutcomeStatus
  pub resolution_date : Option Date
  pub exit_price : Option Decimal
  pub r_multiple : Option Decimal
  pub conservative_r_multiple : Option Decimal
  pub mfe_pct : Option Decimal
  pub mae_pct : Option Decimal
  pub holding : Option ℕ
  pub eligibility_reason : Option String

abbrev pub unfilled : FillStatus → OutcomeStatus → String → Labels
unfilled status outcome reason = record {
  fill_status = status;
  fill_type = FillType.none;
  fill_date = none;
  fill_price = none;
  outcome = outcome;
  resolution_date = none;
  exit_price = none;
  r_multiple = none;
  conservative_r_multiple = none;
  mfe_pct = none;
  mae_pct = none;
  holding = none;
  eligibility_reason = some reason;
}

abbrev pub not_filled : String → Labels
not_filled = unfilled FillStatus.no_fill OutcomeStatus.no_fill

-- the reward of a win over the risk
abbrev win_r : Plan → Decimal → Resolution → Option Decimal → Option Decimal
win_r plan fill_price r otherwise =
    let risk_abs = fill_price -𝔻 plan.invalid in
    if is_win r.outcome
    then if nought <𝔻 risk_abs
      then some (quantized ((plan.s1 -𝔻 fill_price) /𝔻 risk_abs))
      else otherwise
    else otherwise

abbrev risk_reason : Plan → Decimal → Option String
risk_reason plan fill_price =
    if fill_price -𝔻 plan.invalid ≤𝔻 nought then some "RISK_NON_POSITIVE" else none

unfoldable pub filled_labels :
    Plan → ℕ → FillType → Decimal → DailyBar → List DailyBar → Resolution → Labels
filled_labels plan sessions fill_type fill_price bar rest r =
    let excursions =
      apply_mfe_mae (bar ∷ rest) fill_price sessions fill_type bar.trade_date r.outcome
        r.resolution_date in
    record {
      fill_status = FillStatus.filled;
      fill_type = fill_type;
      fill_date = some bar.trade_date;
      fill_price = some fill_price;
      outcome = r.outcome;
      resolution_date = r.resolution_date;
      exit_price = r.exit_price;
      r_multiple = win_r plan fill_price r r.r_value;
      conservative_r_multiple = win_r plan fill_price r r.conservative_r;
      mfe_pct = excursions.0;
      mae_pct = excursions.1;
      holding = r.holding;
      eligibility_reason = risk_reason plan fill_price;
    }

-- from the first session on, when the plan is complete
unfoldable pub open_trade : Plan → ℕ → List DailyBar → Outcome Labels
unfolding filled_labels
open_trade plan sessions [] =
    ok (unfilled FillStatus.censored OutcomeStatus.censored "NO_FUTURE_CONFIRMED_SESSION")
open_trade plan sessions (bar ∷ rest) =
    if bar.open_price ≤𝔻 plan.invalid
    then ok (
        unfilled FillStatus.cancel_gap_invalid OutcomeStatus.cancel_gap_invalid
          "T_PLUS_1_OPEN_AT_OR_BELOW_INVALID")
    else elim (entry_of plan bar) [
      | missed reason ↦ ok (not_filled reason)
      | filled_at fill_type fill_price ↦ do
        r ← resolve plan sessions fill_type bar rest
        ok (filled_labels plan sessions fill_type fill_price bar rest r)
    ]

-- at B2_READY, a plan without reward or of an event that is not actionable is not tried
unfoldable pub reward_reason : Plan → Bool → Outcome (Option String)
reward_reason plan is_entry_candidate = elim plan.trigger [
  | none ↦ ok none
  | some trigger ↦
      if plan.s1 ≤𝔻 trigger
      then if is_entry_candidate
        then raised no_reward_room
        else ok (some "REWARD_NON_POSITIVE_AT_TRIGGER")
      else ok (if is_entry_candidate then none else some "NON_ACTIONABLE_STRUCTURAL_EVENT")
]

unfoldable pub try_plan : Plan → Bool → ℕ → List DailyBar → Outcome Labels
unfolding reward_reason
try_plan plan is_entry_candidate sessions future =
    if plan.preferred ≤𝔻 plan.invalid then ok (not_filled "RISK_NON_POSITIVE") else do
      reason ← reward_reason plan is_entry_candidate
      elim reason [ some r ↦ ok (not_filled r) | none ↦ open_trade plan sessions future ]

-- The trigger belongs to the plan at B2_READY only, and is required there.
abbrev plan_from : FrozenEvent → Option Decimal → Option Decimal → Option Decimal → Option Plan
plan_from event (some preferred) (some invalid) (some s1) =
    if label_is_b2_ready event.execution_label
    then Option.map
        (λ t. record { preferred = preferred; invalid = invalid; s1 = s1; trigger = some t })
        event.b2_trigger_price
    else some (record { preferred = preferred; invalid = invalid; s1 = s1; trigger = none })
plan_from event _ _ _ = none

-- the plan of an event, when none of its prices is missing
unfoldable pub plan_of : FrozenEvent → Option Plan
plan_of event = plan_from event event.preferred_entry event.invalid_price event.s1_price

unfoldable pub labels_of : FrozenEvent → ℕ → List DailyBar → Outcome Labels
unfolding plan_of
labels_of event sessions future =
    if label_is_b1_prep event.execution_label
    then ok (not_filled "B1_PREP_CONVERSION_ONLY")
    else elim (plan_of event) [
      | none ↦ ok (not_filled "INCOMPLETE_FROZEN_TRADE_PLAN")
      | some plan ↦ try_plan plan event.is_entry_candidate sessions future
    ]

abbrev pattern_from : List DailyBar → ℕ → Option Decimal → Option Decimal → Option PatternOutcome
pattern_from future horizon (some s1) (some invalid) =
    some (pattern_result future horizon s1 invalid)
pattern_from future horizon _ _ = none

-- `patterns.get(horizon)`
unfoldable pub pattern_at :
    FrozenEvent → OutcomeStudyConfig → List DailyBar → ℕ → Option PatternOutcome
pattern_at event config future horizon =
    if any (λ h. h == horizon) config.forward_horizons
    then pattern_from future horizon event.s1_price event.invalid_price
    else none

unfoldable pub episode_of :
    FrozenEvent → OutcomeStudyConfig → List DailyBar → Labels → OutcomeEpisode
episode_of event config future labels = record {
  code = event.code;
  setup_id = event.setup_id;
  execution_label = event.execution_label;
  setup_stage = event.setup_stage;
  signal_date = event.signal_date;
  anchor_date = event.anchor_date;
  anchor_price = event.anchor_price;
  support_low = event.support_low;
  support_high = event.support_high;
  support_center = event.support_center;
  b2_trigger_price = event.b2_trigger_price;
  setup_quality_score = event.setup_quality_score;
  entry_quality_score = event.entry_quality_score;
  days_since_anchor = event.days_since_anchor;
  entry_room_state = event.entry_room_state;
  is_entry_candidate = event.is_entry_candidate;
  preferred_entry = event.preferred_entry;
  buy_zone_low = event.buy_zone_low;
  buy_zone_high = event.buy_zone_high;
  invalid_price = event.invalid_price;
  s1_price = event.s1_price;
  entry_reference_price = event.entry_reference_price;
  next_trade_date = Option.map (λ bar. bar.trade_date) (get_elem? future 0);
  fill_status = labels.fill_status;
  fill_type = labels.fill_type;
  fill_date = labels.fill_date;
  fill_price = labels.fill_price;
  outcome = labels.outcome;
  resolution_date = labels.resolution_date;
  exit_price = labels.exit_price;
  r_multiple = labels.r_multiple;
  conservative_r_multiple = labels.conservative_r_multiple;
  mfe_pct = labels.mfe_pct;
  mae_pct = labels.mae_pct;
  holding_sessions_to_resolution = labels.holding;
  future_sessions_available = length future;
  eligibility_reason = labels.eligibility_reason;
  pattern_1d = pattern_at event config future 1;
  pattern_3d = pattern_at event config future 3;
  pattern_5d = pattern_at event config future 5;
  pattern_10d = pattern_at event config future 10;
  prep_conversion_1d = none;
  prep_conversion_3d = none;
  prep_conversion_5d = none;
  prep_mfe_1d = none;
  prep_mfe_3d = none;
  prep_mfe_5d = none;
  prep_mae_1d = none;
  prep_mae_3d = none;
  prep_mae_5d = none;
  raw_signal_days = event.raw_signal_days;
  data_quality = event.data_quality;
  quality_flags = event.quality_flags;
  snapshot_id = event.snapshot_id;
  snapshot_created_at = event.snapshot_created_at;
  strategy_commit = event.strategy_commit;
  strategy_config_hash = event.strategy_config_hash;
  trade_plan_config_hash = event.trade_plan_config_hash;
  outcome_config_hash = event.outcome_config_hash;
  frozen_event_hash = event.frozen_event_hash;
}

-- The construction of a model strips the texts (`str_strip_whitespace` of `DomainModel`): `strip` is
-- pydantic's.
unfoldable pub stripped : (String → String) → FrozenEvent → FrozenEvent
stripped strip event = record event {
  code = strip event.code;
  setup_id = strip event.setup_id;
  data_quality = strip event.data_quality;
  quality_flags = map strip event.quality_flags;
  snapshot_id = strip event.snapshot_id;
  strategy_commit = strip event.strategy_commit;
  strategy_config_hash = strip event.strategy_config_hash;
  trade_plan_config_hash = strip event.trade_plan_config_hash;
  outcome_config_hash = strip event.outcome_config_hash;
  frozen_event_hash = strip event.frozen_event_hash;
}

unfoldable pub complete_event :
    (String → String) → FrozenEvent → List DailyBar → OutcomeStudyConfig → Outcome OutcomeEpisode
unfolding labels_of episode_of stripped
complete_event strip event bars config = do
  let future = future_of bars event.signal_date
  labels ← labels_of event config.max_holding_sessions future
  checked "OutcomeEpisode" validate_episode (episode_of (stripped strip event) config future labels)
