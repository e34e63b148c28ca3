-- ===== src/Models/Signal.antt =====
-- models/signal.py, `StrategySignal` and its invariants. `patterns` holds the pattern fields of a
-- signal together, and is `none` where they have their defaults; `generated_at` is left out.
use a_share_limit_pullback.Base.{
  Bool, true, false, not, ◌&&◌, ◌||◌, String, Option, none, some, List, length, leb, ltb, ◌==◌,
  if◌then◌else◌, all, any, is_empty, is_none, is_some, distinct,
}
use a_share_limit_pullback.Decimal.{Decimal, decimal, nought, ◌≤𝔻◌, ◌<𝔻◌, ◌=𝔻◌, ◌-𝔻◌, ◌/𝔻◌}
use a_share_limit_pullback.Dates.{Date}
use a_share_limit_pullback.Models.Enums.{
  SetupStage, EventFlag, ReviewGroup, DataQuality, EntryRoomState, is_actionable, is_invalid,
  is_b2_ready, is_b2_confirmed, is_limit_anchor, is_unusable, is_open_space, room_is_none,
  room_is_open, flag_eq,
}
use a_share_limit_pullback.Models.Score.{ScoreBreakdown}
use a_share_limit_pullback.Models.Snapshots.{
  AnchorSnapshot, SupportSnapshot, InvalidPriceSnapshot, B2TriggerSnapshot, ResistanceSnapshot,
  S1Snapshot, ResistanceCandidateSnapshot,
}
use a_share_limit_pullback.Models.Strategy.{ConditionScore, PatternEvaluation}

pub record StrategySignal : Type 0 where
  pub strategy_version : String
  pub setup_id : String
  pub trade_date : Date
  pub code : String
  pub setup_stage : SetupStage
  pub patterns : Option PatternEvaluation
  pub b1_conditions : Option ConditionScore
  pub b2_conditions : Option ConditionScore
  pub event_flags : List EventFlag
  pub event_reasons : List (EventFlag × List String)
  pub review_group : ReviewGroup
  pub data_quality : DataQuality
  pub quality_flags : List String
  pub score : ScoreBreakdown
  pub anchor : Option AnchorSnapshot
  pub support : Option SupportSnapshot
  pub invalid_price_snapshot : Option InvalidPriceSnapshot
  pub initial_invalid_price : Option Decimal
  pub invalid_price : Option Decimal
  pub b2_trigger : Option B2TriggerSnapshot
  pub expected_b2_trigger_price : Option Decimal
  pub resistance_candidates : List ResistanceCandidateSnapshot
  pub immediate_resistance : Option ResistanceSnapshot
  pub target_s1 : Option S1Snapshot
  pub entry_reference_price : Option Decimal
  pub entry_headroom_pct : Option Decimal
  pub entry_room_state : Option EntryRoomState
  pub entry_room_reasons : List String
  pub risk_reward_ratio : Option Decimal
  pub entry_quality_score : Option Decimal
  pub invalidation_reasons : List String

abbrev pub holds {ℓ} : {A : Type ℓ} → (A → Bool) → Option A → Bool
holds test none = true
holds test (some a) = test a

abbrev pub has {ℓ} : {A : Type ℓ} → (A → Bool) → Option A → Bool
has test none = false
has test (some a) = test a

abbrev implies : Bool → Bool → Bool
implies p q = not p || q

abbrev pub flagged : EventFlag → StrategySignal → Bool
flagged flag s = any (flag_eq flag) s.event_flags

unfoldable pub is_entry_candidate : StrategySignal → Bool
is_entry_candidate s =
    is_actionable s.setup_stage
    && not (is_unusable s.data_quality)
    && not (flagged EventFlag.s2_exhausted s)
    && not (flagged EventFlag.s1_breakout s)
    && not (has room_is_none s.entry_room_state)

-- every flag has exactly one list of reasons, not empty and without repetition
unfoldable pub check_events : StrategySignal → Bool
check_events s =
    all (λ e. any (flag_eq e.0) s.event_flags) s.event_reasons
    && all (λ f. any (λ e. flag_eq f e.0) s.event_reasons) s.event_flags
    && all (λ e. not (is_empty e.1)) s.event_reasons
    && all (λ e. length (distinct e.1) == length e.1) s.event_reasons

-- no snapshot is from after the trade date
unfoldable pub check_frozen : StrategySignal → Bool
check_frozen s =
    holds (λ x. leb x.frozen_as_of s.trade_date) s.anchor
    && holds (λ x. leb x.frozen_as_of s.trade_date) s.support
    && holds (λ x. leb x.frozen_as_of s.trade_date) s.invalid_price_snapshot
    && holds (λ x. leb x.frozen_as_of s.trade_date) s.b2_trigger
    && holds (λ x. leb x.frozen_as_of s.trade_date) s.immediate_resistance
    && holds (λ x. leb x.frozen_as_of s.trade_date) s.target_s1
    && holds (λ x. leb x.anchor_date s.trade_date) s.anchor

abbrev price_pair : Option Decimal → Option Decimal → Bool
price_pair none none = true
price_pair (some initial) (some current) = initial ≤𝔻 current
price_pair _ _ = false

abbrev same_price : Option Decimal → Decimal → Bool
same_price none x = false
same_price (some y) x = y =𝔻 x

-- the output prices are those of the frozen snapshot
unfoldable pub check_invalid_prices : StrategySignal → Bool
check_invalid_prices s =
    price_pair s.initial_invalid_price s.invalid_price
    && (is_some s.invalid_price_snapshot || is_none s.initial_invalid_price)
    && holds
        (λ x.
          same_price s.initial_invalid_price x.initial_invalid_price
          && same_price s.invalid_price x.invalid_price)
        s.invalid_price_snapshot

-- what each stage needs, or must not have
unfoldable pub check_stage : StrategySignal → Bool
check_stage s =
    implies (is_actionable s.setup_stage) (
      is_some s.anchor
      && is_some s.support
      && is_some s.initial_invalid_price
      && is_some s.invalid_price_snapshot)
    && implies (is_b2_ready s.setup_stage || is_b2_confirmed s.setup_stage) (is_some s.b2_trigger)
    && implies (is_b2_confirmed s.setup_stage) (
        has (λ t. ltb t.frozen_as_of s.trade_date && leb t.eligible_from s.trade_date) s.b2_trigger)
    && implies (is_limit_anchor s.setup_stage) (
        is_none s.support
        && is_none s.invalid_price_snapshot
        && is_none s.b2_trigger
        && is_none s.immediate_resistance
        && is_none s.target_s1
        && is_empty s.event_flags)

-- events need a snapshot that was eligible on the day
unfoldable pub check_event_levels : StrategySignal → Bool
check_event_levels s =
    implies (flagged EventFlag.support_warning s)
      (has (λ x. leb x.eligible_from s.trade_date) s.support)
    && implies
        (flagged EventFlag.near_s1 s
          || flagged EventFlag.s1_breakout s
          || flagged EventFlag.s2_exhausted s)
        (has (λ x. leb x.eligible_from s.trade_date) s.target_s1)

unfoldable pub check_review : StrategySignal → Bool
check_review s =
    implies (is_open_space s.review_group) (is_none s.target_s1 && is_none s.risk_reward_ratio)
    && implies (is_actionable s.setup_stage && is_none s.target_s1) (is_open_space s.review_group)

-- the headroom is derived from the target, and the state from the headroom
abbrev headroom_agrees : StrategySignal → S1Snapshot → Decimal → Bool
headroom_agrees s target reference =
    let expected = (target.s1_low -𝔻 reference) /𝔻 reference in
    has (λ h. h =𝔻 expected) s.entry_headroom_pct
    && implies (expected ≤𝔻 nought) (has room_is_none s.entry_room_state)
    && implies (nought <𝔻 expected)
        (has (λ r. not (room_is_none r) && not (room_is_open r)) s.entry_room_state)

unfoldable pub check_entry_room : StrategySignal → Bool
check_entry_room s =
    if is_actionable s.setup_stage
    then is_some s.entry_reference_price
      && is_some s.entry_room_state
      && not (is_empty s.entry_room_reasons)
      && (if is_none s.target_s1
          then has room_is_open s.entry_room_state && is_none s.entry_headroom_pct
          else holds (λ t. has (headroom_agrees s t) s.entry_reference_price) s.target_s1)
    else is_none s.entry_reference_price
      && is_none s.entry_headroom_pct
      && is_none s.entry_room_state
      && is_empty s.entry_room_reasons

unfoldable pub check_reward : StrategySignal → Bool
check_reward s =
    holds (λ trigger. holds (λ t. trigger <𝔻 t.s1_low) s.target_s1) s.expected_b2_trigger_price
    && (is_empty s.resistance_candidates || is_some s.support)
    && holds (λ r. nought ≤𝔻 r && is_some s.target_s1) s.risk_reward_ratio

unfoldable pub check_score : StrategySignal → Bool
check_score s =
    holds (λ x. nought ≤𝔻 x && x ≤𝔻 decimal 100 0) s.entry_quality_score
    && (if is_actionable s.setup_stage
        then has (λ x. is_entry_candidate s || x =𝔻 nought) s.entry_quality_score
        else is_none s.entry_quality_score)

unfoldable pub check_invalidation : StrategySignal → Bool
check_invalidation s =
    if is_invalid s.setup_stage
    then not (is_empty s.invalidation_reasons)
      && has (λ x. leb x.eligible_from s.trade_date) s.support
      && has (λ x. leb x.eligible_from s.trade_date) s.invalid_price_snapshot
    else is_empty s.invalidation_reasons

-- The pattern fields come from a `PatternEvaluation`, whose validator has the same conditions.
unfoldable pub validate_signal_invariants : StrategySignal → Bool
validate_signal_invariants s =
    check_events s
    && check_frozen s
    && check_invalid_prices s
    && check_stage s
    && check_event_levels s
    && check_review s
    && check_entry_room s
    && check_reward s
    && check_score s
    && check_invalidation s
