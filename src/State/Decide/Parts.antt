-- ===== src/State/Decide/Parts.antt =====
-- What a decision is made of: the calls that it rests on, each with its result.
use a_share_limit_pullback.Base.{
  Bool, String, Option, List, is_some, ok, ◌≡◌, ap, ◌∙◌, >>=-eq-ok, ok-injective,
}
use a_share_limit_pullback.Dates.{Date}
use a_share_limit_pullback.Models.Config.{StrategyConfig}
use a_share_limit_pullback.Models.Market.{DailyBar}
use a_share_limit_pullback.Models.Signal.{StrategySignal}
use a_share_limit_pullback.Models.Strategy.{
  AnchorEvaluation, ConditionScore, IndicatorPoint, PatternEvaluation,
}
use a_share_limit_pullback.Patterns.Evaluation.{evaluate_patterns}
use a_share_limit_pullback.State.Confirm.{evaluate_b1}
use a_share_limit_pullback.State.Decide.{
  anchor_snapshot_of, on_anchor_day, is_invalidated, stage_of, settle, decide,
}
use a_share_limit_pullback.State.Frozen.{frozen_of, frozen_after}
use a_share_limit_pullback.State.Levels.{DayLevels, proposal_of}
use a_share_limit_pullback.State.Publish.{Decision}
use a_share_limit_pullback.State.Transition.{
  prior_trigger, b2_check, current_reasons, all_reasons, was_b1_ready, freezes_trigger,
  trigger_after,
}

module _ (config : StrategyConfig) (as_of : Date) (ordered : List DailyBar)
    (indicators : List IndicatorPoint) (current : DailyBar) (anchor : AnchorEvaluation)
    (previous_same : Option StrategySignal) (setup_id : String) where
  -- the results of the calls before `settle`
  pub record Judged (levels : DayLevels) (d : Decision) : Type 0 where
    pub patterns : PatternEvaluation
    pub b1 : ConditionScore
    pub b2 : Option ConditionScore × Bool
    pub today : List String
    pub patterns_from :
        evaluate_patterns ordered indicators anchor levels.setup_support as_of config ≡ ok patterns
    pub b1_from : evaluate_b1 ordered indicators current anchor levels.setup_support config ≡ ok b1
    pub b2_from :
        b2_check config as_of ordered indicators current anchor (prior_trigger previous_same)
        ≡ ok b2
    pub today_from :
        current_reasons config as_of ordered indicators current anchor levels
          levels.eligible_support levels.eligible_invalid_snapshot
        ≡ ok today
    pub settled :
        settle config as_of ordered indicators current anchor previous_same setup_id levels patterns
          b1 b2 today
        ≡ ok d

  pub decide-Judged :
      (levels : DayLevels) (d : Decision)
      → decide config as_of ordered indicators current anchor previous_same setup_id levels ≡ ok d
      → Judged levels d
  unfolding decide
  decide-Judged levels d h =
      let (patterns, e₀, h₀) =
        >>=-eq-ok (evaluate_patterns ordered indicators anchor levels.setup_support as_of config) _
          h in
      let (b1, e₁, h₁) =
        >>=-eq-ok (evaluate_b1 ordered indicators current anchor levels.setup_support config) _
          h₀ in
      let (b2, e₂, h₂) =
        >>=-eq-ok
          (b2_check config as_of ordered indicators current anchor (prior_trigger previous_same)) _
          h₁ in
      let (today, e₃, h₃) =
        >>=-eq-ok
          (current_reasons config as_of ordered indicators current anchor levels
            levels.eligible_support levels.eligible_invalid_snapshot)
          _ h₂ in
      record {
        patterns = patterns;
        b1 = b1;
        b2 = b2;
        today = today;
        patterns_from = e₀;
        b1_from = e₁;
        b2_from = e₂;
        today_from = e₃;
        settled = h₃;
      }

  module _ (levels : DayLevels) (patterns : PatternEvaluation) (b1 : ConditionScore)
      (b2 : Option ConditionScore × Bool) (today : List String) (d : Decision) where
    abbrev freezes : Bool
    freezes =
        freezes_trigger
          (is_invalidated config as_of ordered indicators current anchor previous_same setup_id
            today)
          (on_anchor_day config as_of ordered indicators current anchor previous_same setup_id) b2.1
          (is_some (prior_trigger previous_same)) (was_b1_ready previous_same)

    pub record Settled : Type 0 where
      pub stage_is :
          stage_of config as_of ordered indicators current anchor previous_same setup_id levels b1
            b2.1 today
          ≡ d.stage
      pub reasons_are : all_reasons previous_same today ≡ d.invalidation_reasons
      pub anchor_is : anchor_snapshot_of anchor previous_same ≡ d.anchor_snapshot
      pub id_is : setup_id ≡ d.setup_id
      pub trigger_from :
          trigger_after freezes (prior_trigger previous_same) ordered as_of config ≡ ok d.trigger
      pub frozen_from :
          frozen_after as_of config current d.stage (frozen_of previous_same) (proposal_of levels)
          ≡ ok d.frozen

    pub settle-Settled :
        settle config as_of ordered indicators current anchor previous_same setup_id levels patterns
            b1 b2 today
          ≡ ok d
        → Settled
    unfolding settle
    settle-Settled h =
        let (trigger, e₀, h₀) =
          >>=-eq-ok (trigger_after freezes (prior_trigger previous_same) ordered as_of config) _
            h in
        let (frozen, e₁, h₁) =
          >>=-eq-ok
            (frozen_after as_of config current
              (stage_of config as_of ordered indicators current anchor previous_same setup_id levels
                b1 b2.1 today)
              (frozen_of previous_same) (proposal_of levels))
            _ h₀ in
        let e = ok-injective h₁ in
        record {
          stage_is = ap (λ x. x.stage) e;
          reasons_are = ap (λ x. x.invalidation_reasons) e;
          anchor_is = ap (λ x. x.anchor_snapshot) e;
          id_is = ap (λ x. x.setup_id) e;
          trigger_from = e₀ ∙ ap (λ x. ok x.trigger) e;
          frozen_from = cc;
        }
