-- ===== src/Replay/Timeline.antt =====
-- replay.py: a timeline and its summaries (`_transition_summary`, `_setup_summaries`). An item keeps
-- the fields of the signal that the summaries read, its event flags in the order of the signal.
use a_share_limit_pullback.Base.{
  Bool, true, false, not, ◌&&◌, String, str_eq, Option, none, some, List, [], ◌∷◌, ltb, ◌==◌,
  if◌then◌else◌, any, first, keep, get_elem?, least, Outcome, ok, or_raise, index_error,
  stop_iteration, ◌>>=◌,
}
use mathlib.Core.Option
use a_share_limit_pullback.Dates.{Date}
use a_share_limit_pullback.Models.Enums.{
  DataQuality, EventFlag, ScoreProfile, SetupStage, flag_eq, is_b1_ready, is_b2_confirmed,
  is_b2_ready, is_invalid, is_price_only,
}
use a_share_limit_pullback.Models.Labels.{SetupTerminationReason}
use a_share_limit_pullback.Models.Signal.{StrategySignal}
use a_share_limit_pullback.Models.Snapshots.{AnchorSnapshot}

pub record TimelineItem : Type 0 where
  pub trade_date : Date
  pub setup_id : String
  pub setup_stage : SetupStage
  pub event_flags : List EventFlag
  pub score_profile : ScoreProfile
  pub anchor_snapshot : Option AnchorSnapshot
  pub data_quality : DataQuality

unfoldable pub timeline_item : StrategySignal → TimelineItem
timeline_item signal = record {
  trade_date = signal.trade_date;
  setup_id = signal.setup_id;
  setup_stage = signal.setup_stage;
  event_flags = signal.event_flags;
  score_profile = signal.score.profile;
  anchor_snapshot = signal.anchor;
  data_quality = signal.data_quality;
}

-- the day of the first item at a stage, and of the first with an event
unfoldable pub first_stage : (SetupStage → Bool) → List TimelineItem → Option Date
first_stage is_stage timeline =
    Option.map (λ i. i.trade_date) (first (λ i. is_stage i.setup_stage) timeline)

unfoldable pub first_event : EventFlag → List TimelineItem → Option Date
first_event event timeline =
    Option.map (λ i. i.trade_date) (first (λ i. any (flag_eq event) i.event_flags) timeline)

abbrev pub anchor_dates : List TimelineItem → List Date
anchor_dates [] = []
anchor_dates (item ∷ items) = elim item.anchor_snapshot [
  | none ↦ anchor_dates items
  | some anchor ↦ anchor.anchor_date ∷ anchor_dates items
]

pub record ReplayTransitionSummary : Type 0 where
  pub first_anchor_date : Option Date
  pub first_b1_date : Option Date
  pub first_b2_ready_date : Option Date
  pub first_b2_confirmed_date : Option Date
  pub first_near_s1_date : Option Date
  pub first_s1_breakout_date : Option Date
  pub first_s2_exhausted_date : Option Date
  pub invalid_date : Option Date

unfoldable pub transition_summary : List TimelineItem → ReplayTransitionSummary
unfolding first_stage first_event
transition_summary timeline = record {
  first_anchor_date = least ltb (anchor_dates timeline);
  first_b1_date = first_stage is_b1_ready timeline;
  first_b2_ready_date = first_stage is_b2_ready timeline;
  first_b2_confirmed_date = first_stage is_b2_confirmed timeline;
  first_near_s1_date = first_event EventFlag.near_s1 timeline;
  first_s1_breakout_date = first_event EventFlag.s1_breakout timeline;
  first_s2_exhausted_date = first_event EventFlag.s2_exhausted timeline;
  invalid_date = first_stage is_invalid timeline;
}

pub record SetupSummary : Type 0 where
  pub setup_id : String
  pub anchor_date : Date
  pub score_profile : ScoreProfile
  pub data_quality : DataQuality
  pub first_b1_date : Option Date
  pub first_b2_ready_date : Option Date
  pub first_b2_confirmed_date : Option Date
  pub first_near_s1_date : Option Date
  pub first_s1_breakout_date : Option Date
  pub first_s2_exhausted_date : Option Date
  pub invalid_date : Option Date
  pub final_stage : SetupStage
  pub closed_date : Option Date
  pub termination_reason : SetupTerminationReason

abbrev pub same_date : Option Date → Option Date → Bool
same_date none none = true
same_date (some a) (some b) = a == b
same_date _ _ = false

abbrev is_closed : Option Date → Bool
is_closed none = false
is_closed (some _) = true

abbrev pub is_termination : SetupTerminationReason → Option Date → Option Date → Bool
is_termination SetupTerminationReason.active closed_date invalid_date = not (is_closed closed_date)
is_termination SetupTerminationReason.invalidated closed_date invalid_date =
    is_closed closed_date && same_date closed_date invalid_date
is_termination _ closed_date invalid_date = is_closed closed_date

unfoldable pub validate_termination : SetupSummary → Bool
validate_termination s = is_termination s.termination_reason s.closed_date s.invalid_date

-- the items with an anchor, each with it
abbrev pub anchored : List TimelineItem → List (TimelineItem × AnchorSnapshot)
anchored [] = []
anchored (item ∷ items) = elim item.anchor_snapshot [
  | none ↦ anchored items
  | some anchor ↦ (item, anchor) ∷ anchored items
]

-- the setups in the order of their first items
unfoldable pub setup_ids : List (TimelineItem × AnchorSnapshot) → List String
setup_ids [] = []
setup_ids (i ∷ items) = i.0.setup_id ∷ keep (λ id. not (str_eq id i.0.setup_id)) (setup_ids items)

abbrev pub grouped :
    String → List (TimelineItem × AnchorSnapshot) → List (TimelineItem × AnchorSnapshot)
grouped id = keep (λ i. str_eq i.0.setup_id id)

abbrev pub same_profile : ScoreProfile → ScoreProfile → Bool
same_profile ScoreProfile.price_only p = is_price_only p
same_profile ScoreProfile.full p = not (is_price_only p)

-- when a setup ended, and why: `next` is the setup after it, `final` its last item and `latest` the
-- last of the timeline
unfoldable pub closing :
    List TimelineItem
    → List (TimelineItem × AnchorSnapshot)
    → Option Date
    → Option String
    → TimelineItem
    → TimelineItem
    → Outcome (Option Date × SetupTerminationReason)
closing timeline items (some day) next final latest =
    ok (some day, SetupTerminationReason.invalidated)
closing timeline items none (some id) final latest = do
  opening ← or_raise (get_elem? (grouped id items) 0) index_error
  ok (some opening.1.anchor_date, SetupTerminationReason.superseded_by_new_anchor)
closing timeline items none none final latest =
    if not (ltb final.trade_date latest.trade_date)
    then ok (none, SetupTerminationReason.active)
    else do
      after ← or_raise (first (λ i. ltb final.trade_date i.trade_date) timeline) stop_iteration
      ok (some after.trade_date, SetupTerminationReason.expired)
