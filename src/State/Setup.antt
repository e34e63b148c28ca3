-- ===== src/State/Setup.antt =====
-- state/engine.py, `evaluate_strategy` with an anchor: a signal, and the decision that it publishes.
pub mod Course
pub mod Stages
use a_share_limit_pullback.Base.{
  true, false, Option, none, some, List, String, ok, checked, checked-ok, >>=-eq-ok, ◌≡◌, sym, ap,
}
use a_share_limit_pullback.Decimal.{Decimal}
use a_share_limit_pullback.Dates.{Date}
use a_share_limit_pullback.Models.Config.{StrategyConfig}
use a_share_limit_pullback.Models.Enums.{EventFlag, ScoreProfile}
use a_share_limit_pullback.Models.Market.{DailyBar, LimitUpRecord}
use a_share_limit_pullback.Models.Score.{Ranking, ScoreBreakdown}
use a_share_limit_pullback.Models.Signal.{StrategySignal, validate_signal_invariants}
use a_share_limit_pullback.Models.Strategy.{AnchorEvaluation, IndicatorPoint}
use a_share_limit_pullback.State.Decide.{on_anchor_day, decide}
use a_share_limit_pullback.State.Decide.Parts.{Judged, decide-Judged}
use a_share_limit_pullback.State.Entry.{EntryRoom, entry_room}
use a_share_limit_pullback.State.Events.{evaluate_event_flags}
use a_share_limit_pullback.State.Evaluate.{
  evaluate_setup, conclude, setup_id_of, base_facts, eligible_price,
}
use a_share_limit_pullback.State.Frozen.{same_setup, frozen_of}
use a_share_limit_pullback.State.Levels.{DayLevels, day_levels}
use a_share_limit_pullback.State.Publish.{Decision, published, publish, signal_of, signal_reward}

-- what a published signal says of the decision
pub record Publishes (as_of : Date) (d : Decision) (t : StrategySignal) : Type 0 where
  pub stage : t.setup_stage ≡ d.stage
  pub levels : frozen_of (some t) ≡ published d.stage d.frozen
  pub trigger : t.b2_trigger ≡ d.trigger
  pub reasons_kept : t.invalidation_reasons ≡ d.invalidation_reasons
  pub id : t.setup_id ≡ d.setup_id
  pub date : t.trade_date ≡ as_of
  pub valid : validate_signal_invariants t ≡ true

module _ (config : StrategyConfig) (as_of : Date) (current : DailyBar) (profile : ScoreProfile)
    (d : Decision) (flags : List EventFlag) (reasons : List (EventFlag × List String))
    (score : ScoreBreakdown) where
  signal_of-Publishes :
      (room : EntryRoom) (ratio : Option Decimal) (t : StrategySignal)
      → checked "StrategySignal" validate_signal_invariants
          (signal_of config as_of current profile d flags reasons score room ratio)
        ≡ ok t
      → Publishes as_of d t
  unfolding signal_of frozen_of
  signal_of-Publishes room ratio t h =
      let (e, valid) =
        checked-ok "StrategySignal" validate_signal_invariants
          (signal_of config as_of current profile d flags reasons score room ratio) h in
      record {
        stage = sym (ap (λ x. x.setup_stage) e);
        levels = sym (ap (λ x. frozen_of (some x)) e);
        trigger = sym (ap (λ x. x.b2_trigger) e);
        reasons_kept = sym (ap (λ x. x.invalidation_reasons) e);
        id = sym (ap (λ x. x.setup_id) e);
        date = sym (ap (λ x. x.trade_date) e);
        valid = valid;
      }

  publish-Publishes :
      {t : StrategySignal}
      → publish config as_of current profile d flags reasons score ≡ ok t
      → Publishes as_of d t
  unfolding publish
  publish-Publishes {t} h =
      let (ratio, e₀, h₀) =
        >>=-eq-ok (signal_reward d.stage current (published d.stage d.frozen)) _ h in
      let (room, e₁, h₁) =
        >>=-eq-ok
          (entry_room d.stage current.close d.trigger (published d.stage d.frozen).target_s1 config)
          _ h₀ in
      signal_of-Publishes room ratio t h₁

module _ (ranking : Ranking) (config : StrategyConfig) (as_of : Date) (ordered : List DailyBar)
    (indicators : List IndicatorPoint) (current : DailyBar) (pool : List LimitUpRecord)
    (anchor : AnchorEvaluation) where
  abbrev pub id_of : String
  id_of = setup_id_of ranking config as_of ordered indicators current pool anchor

  -- the levels and the decision behind a signal
  pub record Evaluated (previous_same : Option StrategySignal) (t : StrategySignal) : Type 0 where
    pub levels : DayLevels
    pub decision : Decision
    pub levels_from :
        day_levels config as_of ordered indicators current anchor (frozen_of previous_same)
        ≡ ok levels
    pub judged :
        Judged config as_of ordered indicators current anchor previous_same id_of levels decision
    pub publishes : Publishes as_of decision t

  conclude-Publishes :
      (levels : DayLevels) (d : Decision) {t : StrategySignal}
      → conclude ranking config as_of ordered indicators current pool anchor levels d ≡ ok t
      → Publishes as_of d t
  unfolding conclude
  conclude-Publishes levels d h =
      let (events, e₀, h₀) =
        >>=-eq-ok
          (evaluate_event_flags ordered indicators current levels.eligible_support
            (eligible_price ranking config as_of ordered indicators current pool
              levels.eligible_invalid_snapshot)
            levels.eligible_target_s1 d.stage config)
          _ h in
      let (score, e₁, h₁) = >>=-eq-ok (ranking _) _ h₀ in
      publish-Publishes config as_of current anchor.profile d events.0 events.1 score h₁

  pub evaluate_setup-Evaluated :
      (previous : Option StrategySignal) {t : StrategySignal}
      → evaluate_setup ranking config as_of ordered indicators current pool anchor previous ≡ ok t
      → Evaluated (same_setup previous id_of) t
  unfolding evaluate_setup
  evaluate_setup-Evaluated previous h =
      let before = same_setup previous id_of in
      let (levels, e₀, h₀) =
        >>=-eq-ok (day_levels config as_of ordered indicators current anchor (frozen_of before)) _
          h in
      let (d, e₁, h₁) =
        >>=-eq-ok (decide config as_of ordered indicators current anchor before id_of levels) _
          h₀ in
      record {
        levels = levels;
        decision = d;
        levels_from = e₀;
        judged =
            decide-Judged config as_of ordered indicators current anchor before id_of levels d e₁;
        publishes = conclude-Publishes levels d h₁;
      }
