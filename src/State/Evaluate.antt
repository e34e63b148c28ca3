-- ===== src/State/Evaluate.antt =====
-- state/engine.py, `evaluate_strategy`. `ranking_fn` is a parameter.
use a_share_limit_pullback.Base.{
  ℕ, String, ◌<>◌, Option, none, some, List, [], ◌∷◌, sorted, distinct, Outcome, checked, ◌>>=◌,
}
use a_share_limit_pullback.Decimal.{Decimal}
use a_share_limit_pullback.Dates.{Date, compact}
use a_share_limit_pullback.Models.Config.{StrategyConfig}
use a_share_limit_pullback.Models.Enums.{SetupStage, ReviewGroup, DataQuality, ScoreProfile}
use a_share_limit_pullback.Models.Market.{DailyBar, LimitUpRecord}
use a_share_limit_pullback.Models.Score.{Ranking, RankingFacts, ScoreBreakdown}
use a_share_limit_pullback.Models.Signal.{StrategySignal, validate_signal_invariants}
use a_share_limit_pullback.Models.Snapshots.{InvalidPriceSnapshot}
use a_share_limit_pullback.Models.Strategy.{AnchorEvaluation, IndicatorPoint}
use a_share_limit_pullback.State.Events.{evaluate_event_flags}
use a_share_limit_pullback.State.Decide.{decide}
use a_share_limit_pullback.State.Frozen.{same_setup, frozen_of}
use a_share_limit_pullback.State.Identity.{make_setup_id}
use a_share_limit_pullback.State.Inputs.{
  BarSource, ordered_of, check_inputs, usable_pool, indicators_of,
}
use a_share_limit_pullback.State.Levels.{DayLevels, day_levels}
use a_share_limit_pullback.State.Publish.{Decision, publish}
use a_share_limit_pullback.Structure.Anchor.{detect_anchor}

-- the facts that the two paths give to the ranking
abbrev pub base_facts :
    StrategyConfig
    → List DailyBar
    → List IndicatorPoint
    → DailyBar
    → List LimitUpRecord
    → RankingFacts
base_facts config ordered indicators current pool = record {
  config = config;
  profile = ScoreProfile.price_only;
  bars = ordered;
  indicators = indicators;
  current = current;
  anchor = none;
  support = none;
  patterns = none;
  b1_conditions = none;
  b2_conditions = none;
  setup_stage = SetupStage.normal;
  limit_pool = pool;
  event_flags = [];
}

module _ (ranking : Ranking) (config : StrategyConfig) (as_of : Date) (ordered : List DailyBar)
    (indicators : List IndicatorPoint) (current : DailyBar) (pool : List LimitUpRecord) where
  normal_signal : ScoreBreakdown → StrategySignal
  normal_signal score = record {
    strategy_version = config.strategy_version;
    setup_id = current.code <> ":" <> compact as_of <> ":NORMAL";
    trade_date = as_of;
    code = current.code;
    setup_stage = SetupStage.normal;
    patterns = none;
    b1_conditions = none;
    b2_conditions = none;
    event_flags = [];
    event_reasons = [];
    review_group = ReviewGroup.standard;
    data_quality = DataQuality.unusable;
    quality_flags = sorted (distinct ("NO_VALID_ANCHOR" ∷ score.quality_flags));
    score = score;
    anchor = none;
    support = none;
    invalid_price_snapshot = none;
    initial_invalid_price = none;
    invalid_price = none;
    b2_trigger = none;
    expected_b2_trigger_price = none;
    resistance_candidates = [];
    immediate_resistance = none;
    target_s1 = none;
    entry_reference_price = none;
    entry_headroom_pct = none;
    entry_room_state = none;
    entry_room_reasons = [];
    risk_reward_ratio = none;
    entry_quality_score = none;
    invalidation_reasons = [];
  }

  -- the path with no anchor
  unfoldable pub evaluate_normal : Outcome StrategySignal
  unfolding normal_signal
  evaluate_normal = do
    score ← ranking (base_facts config ordered indicators current pool)
    checked "StrategySignal" validate_signal_invariants (normal_signal score)

  abbrev pub eligible_price : Option InvalidPriceSnapshot → Option Decimal
  eligible_price none = none
  eligible_price (some s) = some s.invalid_price

  -- events, score and signal of a decision
  unfoldable pub conclude : AnchorEvaluation → DayLevels → Decision → Outcome StrategySignal
  conclude anchor levels d = do
    events ←
        evaluate_event_flags ordered indicators current levels.eligible_support
          (eligible_price levels.eligible_invalid_snapshot) levels.eligible_target_s1 d.stage config
    score ← ranking (record (base_facts config ordered indicators current pool) {
      profile = anchor.profile;
      anchor = some anchor;
      support = levels.setup_support;
      patterns = some d.patterns;
      b1_conditions = some d.b1_conditions;
      b2_conditions = d.b2_conditions;
      setup_stage = d.stage;
      event_flags = events.0;
    })
    publish config as_of current anchor.profile d events.0 events.1 score

  unfoldable pub setup_id_of : AnchorEvaluation → String
  setup_id_of anchor =
      make_setup_id current.code anchor.snapshot.anchor_date anchor.snapshot.anchor_price
        config.anchor.price_tick

  -- the path with an anchor
  unfoldable pub evaluate_setup : AnchorEvaluation → Option StrategySignal → Outcome StrategySignal
  evaluate_setup anchor previous = do
    let setup_id = setup_id_of anchor
    let previous_same = same_setup previous setup_id
    levels ← day_levels config as_of ordered indicators current anchor (frozen_of previous_same)
    d ← decide config as_of ordered indicators current anchor previous_same setup_id levels
    conclude anchor levels d

  unfoldable pub evaluate_anchor :
      Option AnchorEvaluation → Option StrategySignal → Outcome StrategySignal
  evaluate_anchor none previous = evaluate_normal
  evaluate_anchor (some anchor) previous = evaluate_setup anchor previous

unfoldable pub evaluate_strategy :
    Ranking
    → BarSource
    → Date
    → StrategyConfig
    → List LimitUpRecord
    → Option StrategySignal
    → Option (List IndicatorPoint)
    → Option ℕ
    → Outcome StrategySignal
evaluate_strategy ranking bars as_of config limit_pool previous precomputed end_index = do
  let ordered = ordered_of bars as_of
  let pool = usable_pool limit_pool as_of
  current ← check_inputs ordered previous as_of config
  indicators ← indicators_of ordered config as_of precomputed end_index
  anchor ← detect_anchor ordered as_of config pool
  evaluate_anchor ranking config as_of ordered indicators current pool anchor previous
