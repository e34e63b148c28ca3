-- ===== src/Tests/Study.antt =====
-- One event at B2_READY and the four sessions around it.
use a_share_limit_pullback.Base.{
  Bool, true, false, String, str_eq, if◌then◌else◌, ◌+◌, true, none, some, List, [], ◌∷◌,
  no_reward_room, raised, ok, ◌≡◌, ◌↔◌, refl, arith, ◌≤◌,
}
use a_share_limit_pullback.Decimal.{decimal}
use a_share_limit_pullback.Models.Enums.{SetupStage}
use a_share_limit_pullback.Models.Labels.{ExecutionLabel, OutcomeStatus, PatternOutcome, FillType}
use a_share_limit_pullback.Models.Market.{DailyBar}
use a_share_limit_pullback.Models.Outcome.{OutcomeEpisode, OutcomeStudyConfig, from_payload}
use a_share_limit_pullback.Study.Again.{
  frozen_event_from_episode-complete_event, relabel_frozen_event-complete_event,
}
use a_share_limit_pullback.Study.Barriers.{Resolution, pattern_result, trigger_outcome}
use a_share_limit_pullback.Study.Bounds.{IsTradable}
use a_share_limit_pullback.Study.Cohort.{IsCompleted, stats-adds_up, stats-ordered}
use a_share_limit_pullback.Study.Complete.{complete_event, stripped}
use a_share_limit_pullback.Study.Consistent.{IsConsistent}
use a_share_limit_pullback.Study.Episode.{
  complete_event-IsConsistent, complete_event-IsTradable, labels_in,
}
use a_share_limit_pullback.Study.Event.{FrozenEvent, future_of, later_than}
use a_share_limit_pullback.Study.FirstTouch.{
  Justifies, as_pattern, pattern_result-eq, trigger_outcome-pattern_result,
}
use a_share_limit_pullback.Study.Later.{IncreasesFrom, future_of-later_than}
use a_share_limit_pullback.Study.Relabel.{frozen_event_from_episode, relabel_frozen_event}
use a_share_limit_pullback.Study.Stats.{stats}
use a_share_limit_pullback.Tests.Course.{is_ok, value, is_ok-value}
use a_share_limit_pullback.Tests.Engine.{engine}
use a_share_limit_pullback.Tests.Samples.{bar}

abbrev event : FrozenEvent
event = record {
  code = "600468";
  setup_id = "setup";
  execution_label = ExecutionLabel.b2_ready;
  setup_stage = SetupStage.b2_ready;
  signal_date = 739804;
  anchor_date = some 739803;
  anchor_price = some (decimal 11 0);
  support_low = some (decimal 105 1);
  support_high = some (decimal 107 1);
  support_center = some (decimal 106 1);
  b2_trigger_price = some (decimal 11 0);
  setup_quality_score = decimal 75 0;
  entry_quality_score = none;
  days_since_anchor = some 1;
  entry_room_state = none;
  is_entry_candidate = true;
  preferred_entry = some (decimal 11 0);
  buy_zone_low = none;
  buy_zone_high = none;
  invalid_price = some (decimal 10 0);
  s1_price = some (decimal 12 0);
  entry_reference_price = none;
  data_quality = "OK";
  quality_flags = [];
  snapshot_id = "snapshot";
  strategy_commit = " commit";
  strategy_config_hash = "strategy";
  trade_plan_config_hash = "plan";
  outcome_config_hash = "outcome";
  frozen_event_hash = "event";
  raw_signal_days = 1;
  snapshot_created_at = none;
}

-- a stripping of the one text of the event that has a space around it
abbrev strip : String → String
strip s = if str_eq s " commit" then "commit" else s

strip_twice : (s : String) → strip (strip s) ≡ strip s
strip_twice s = by_test (str_eq s " commit") refl
  where
    by_test :
        (b : Bool)
        → str_eq s " commit" ≡ b
        → strip (if b then "commit" else s) ≡ (if b then "commit" else s)
    by_test true e = refl
    by_test false e = rw e refl

abbrev study : OutcomeStudyConfig
study = record { forward_horizons = 1 ∷ 3 ∷ 5 ∷ 10 ∷ []; max_holding_sessions = 10 }

from_payload_runs : from_payload study ≡ ok study
unfolding engine
from_payload_runs = refl

abbrev day_one : DailyBar
day_one = bar 739805 1080 1110 1070 1105 1075 1000

abbrev day_two : DailyBar
day_two = bar 739806 1110 1210 1090 1200 1105 1000

abbrev bars : List DailyBar
bars = bar 739804 1070 1080 1060 1075 1070 1000 ∷ day_one ∷ day_two ∷ []

completes : is_ok (complete_event strip event bars study) ≡ true
unfolding engine
completes = refl

abbrev episode : OutcomeEpisode
episode = value (complete_event strip event bars study) completes

completed : complete_event strip event bars study ≡ ok episode
completed = is_ok-value _ completes

wins_on_day_two :
    (episode.outcome ≡ OutcomeStatus.win_s1)
    × (episode.fill_type ≡ FillType.breakout_trigger_fill)
    × (episode.holding_sessions_to_resolution ≡ some 2)
    × (episode.r_multiple ≡ some (decimal 10000 4))
    × (episode.mfe_pct ≡ some (decimal 1000 4))
    × (episode.pattern_1d ≡ some PatternOutcome.neither)
    × (episode.pattern_3d ≡ some PatternOutcome.s1_before_invalid)
    × (episode.pattern_10d ≡ some PatternOutcome.s1_before_invalid)
unfolding engine value
wins_on_day_two = (refl, refl, refl, refl, refl, refl, refl, refl)

two_days :
    pattern_result (day_one ∷ day_two ∷ []) 3 (decimal 12 0) (decimal 10 0)
    ≡ PatternOutcome.s1_before_invalid
unfolding engine
two_days = refl

pattern_result-eq_example :
    (pattern_result (day_one ∷ day_two ∷ []) 3 (decimal 12 0) (decimal 10 0)
      ≡ PatternOutcome.s1_before_invalid)
    ↔ Justifies
        (decimal 12 0)
        (decimal 10 0)
        (day_one ∷ day_two ∷ [])
        3
        PatternOutcome.s1_before_invalid
pattern_result-eq_example =
    pattern_result-eq (decimal 12 0) (decimal 10 0) (day_one ∷ day_two ∷ []) 3
      PatternOutcome.s1_before_invalid

trigger_outcome-pattern_result_example :
    (r : Resolution) × (trigger_outcome (day_one ∷ day_two ∷ []) 10 (decimal 12 0) (decimal 10 0)
      ≡ ok r)
    × (as_pattern r.outcome
        ≡ some (pattern_result (day_one ∷ day_two ∷ []) 10 (decimal 12 0) (decimal 10 0)))
trigger_outcome-pattern_result_example =
    trigger_outcome-pattern_result (day_one ∷ day_two ∷ []) 10 (decimal 12 0) (decimal 10 0)
      (omega arith)

complete_event-IsConsistent_example :
    IsConsistent event.s1_price event.invalid_price 10 (labels_in episode)
complete_event-IsConsistent_example =
    complete_event-IsConsistent strip event bars study episode (omega arith) completed

starts : future_of bars 739804 ≡ day_one ∷ day_two ∷ []
unfolding engine
starts = refl

filled_at_eleven : episode.fill_price ≡ some (decimal 11 0)
unfolding engine value
filled_at_eleven = refl

complete_event-IsTradable_example :
    IsTradable day_one (decimal 11 0) × (episode.fill_date ≡ some 739805)
unfolding engine
complete_event-IsTradable_example =
    complete_event-IsTradable strip event bars study episode day_one (day_two ∷ []) (decimal 11 0)
      starts refl completed filled_at_eleven

abbrev without_room : FrozenEvent
without_room = record event { s1_price = some (decimal 11 0) }

raises : complete_event strip without_room bars study ≡ raised no_reward_room
unfolding engine
raises = refl

dates_increase : IncreasesFrom 0 bars
unfolding IncreasesFrom
dates_increase = (omega arith, (omega arith, (omega arith, tt)))

future_of-later_than_example : future_of bars 739804 ≡ later_than 739804 bars
future_of-later_than_example = future_of-later_than bars 739804 dates_increase

stats-adds_up_example :
    (stats (episode ∷ episode ∷ []) true).episodes
    ≡ (stats (episode ∷ episode ∷ []) true).no_fill
      + (stats (episode ∷ episode ∷ []) true).cancel_gap_invalid
      + (stats (episode ∷ episode ∷ []) true).resolved
      + (stats (episode ∷ episode ∷ []) true).censored
stats-adds_up_example = stats-adds_up (episode ∷ episode ∷ []) true

is_completed : IsCompleted episode
is_completed = record {
  strip = strip;
  event = event;
  bars = bars;
  config = study;
  holds = omega arith;
  completed = completed;
}

stats-ordered_example :
    ((stats (episode ∷ episode ∷ []) true).resolved ≤ (stats (episode ∷ episode ∷ []) true).filled)
    × ((stats (episode ∷ episode ∷ []) true).filled
        ≤ (stats (episode ∷ episode ∷ []) true).eligible)
stats-ordered_example =
    stats-ordered (episode ∷ episode ∷ []) true (is_completed, (is_completed, tt))

frozen_event_from_episode-complete_event_example :
    frozen_event_from_episode episode ≡ stripped strip event
frozen_event_from_episode-complete_event_example =
    frozen_event_from_episode-complete_event strip event bars study episode completed

relabel_frozen_event-complete_event_example :
    relabel_frozen_event strip episode bars study ≡ ok episode
relabel_frozen_event-complete_event_example =
    relabel_frozen_event-complete_event strip event bars study episode completed strip_twice
