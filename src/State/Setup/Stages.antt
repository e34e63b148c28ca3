-- ===== src/State/Setup/Stages.antt =====
-- What it takes to become INVALID or B2_CONFIRMED.
use a_share_limit_pullback.Base.{
  Bool, true, false, not, String, Option, none, some, List, is_some, is_empty, leb, contains, ok,
  ◌>>=◌, Bool-cases, >>=-eq-ok, ok-injective, inl, inr, ◌≡◌, refl, sym, ap, ◌∙◌, arith,
}
use mathlib.Core.Option
use a_share_limit_pullback.Dates.{Date}
use a_share_limit_pullback.Decimal.{◌≤𝔻◌}
use a_share_limit_pullback.Models.Config.{StrategyConfig}
use a_share_limit_pullback.Models.Enums.{SetupStage, is_invalid, is_b2_confirmed}
use a_share_limit_pullback.Models.Market.{DailyBar}
use a_share_limit_pullback.Models.Score.{Ranking}
use a_share_limit_pullback.Models.Signal.{StrategySignal, has}
use a_share_limit_pullback.Models.Snapshots.{B2TriggerSnapshot, InvalidPriceSnapshot}
use a_share_limit_pullback.Models.Strategy.{
  AnchorEvaluation, ConditionScore, IndicatorPoint, PriceCluster,
}
use a_share_limit_pullback.State.Confirm.{evaluate_b2_confirmation}
use a_share_limit_pullback.State.Confirm.Trigger.{evaluate_b2_confirmation-matched}
use a_share_limit_pullback.State.Decide.Parts.{Settled, settle-Settled}
use a_share_limit_pullback.State.Decide.Stages.{all_reasons_today}
use a_share_limit_pullback.State.Frozen.{same_setup, frozen_of, eligible}
use a_share_limit_pullback.State.Identity.{as_cluster}
use a_share_limit_pullback.State.Levels.{DayLevels}
use a_share_limit_pullback.State.Levels.Eligible.{day_levels-Eligible}
use a_share_limit_pullback.State.Setup.{Evaluated}
use a_share_limit_pullback.State.Setup.Course.{Day, setup_of, signal_on, IsNextDay, evaluated}
use a_share_limit_pullback.State.Transition.{
  next_stage, b2_check, confirms_b2, current_reasons, prior_trigger, all_reasons,
}

next_stage-invalid : (i day c t b r : Bool) → is_invalid (next_stage i day c t b r) ≡ i
unfolding next_stage
next_stage-invalid i day c t b r = ground arith

next_stage-confirmed :
    (i day c t b r : Bool) → is_b2_confirmed (next_stage i day c t b r) ≡ true → c ≡ true
unfolding next_stage
next_stage-confirmed i day c t b r h = ground arith

eligible-has :
    {A : Type 0} (from : A → Date) (as_of : Date) (o : Option A)
    → is_some (eligible from as_of o) ≡ true
    → has (λ a. leb (from a) as_of) o ≡ true
unfolding eligible
eligible-has from as_of none h = cc
eligible-has from as_of (some a) h = ground arith

is_some-map : {A B : Type 0} (f : A → B) (o : Option A) → is_some (Option.map f o) ≡ is_some o
is_some-map f none = refl
is_some-map f (some a) = refl

-- the day has reached an eligible trigger
pub record HasReached (as_of : Date) (current : DailyBar) (o : Option B2TriggerSnapshot)
    : Type 0 where
  pub trigger : B2TriggerSnapshot
  pub from : o ≡ some trigger
  pub is_eligible : leb trigger.eligible_from as_of ≡ true
  pub high_reached : (trigger.trigger_price ≤𝔻 current.high) ≡ true
  pub close_held : (trigger.trigger_price ≤𝔻 current.close) ≡ true

module _ (config : StrategyConfig) (as_of : Date) (ordered : List DailyBar)
    (indicators : List IndicatorPoint) (current : DailyBar) (anchor : AnchorEvaluation) where
  current_reasons-some :
      (levels : DayLevels) (o : Option PriceCluster) (i : Option InvalidPriceSnapshot)
      (today : List String)
      → current_reasons config as_of ordered indicators current anchor levels o i ≡ ok today
      → is_empty today ≡ false
      → (is_some o ≡ true) × (is_some i ≡ true)
  unfolding current_reasons
  current_reasons-some levels (some o) (some i) today h e = (refl, refl)
  current_reasons-some levels (some o) none today h e = cc
  current_reasons-some levels none i today h e = cc

  b2_check-eligible :
      (trigger : B2TriggerSnapshot)
      → leb trigger.eligible_from as_of ≡ true
      → b2_check config as_of ordered indicators current anchor (some trigger) ≡ (
          evaluate_b2_confirmation ordered indicators current anchor trigger config >>= λ b2.
          ok (some b2, confirms_b2 config b2))
  unfolding b2_check
  b2_check-eligible trigger h = ground arith

  b2_check-late :
      (trigger : B2TriggerSnapshot)
      → leb trigger.eligible_from as_of ≡ false
      → b2_check config as_of ordered indicators current anchor (some trigger) ≡ ok (none, false)
  unfolding b2_check
  b2_check-late trigger h = ground arith

  confirms_b2-mandatory :
      (b2 : ConditionScore)
      → confirms_b2 config b2 ≡ true
      → (contains b2.matched "intraday_trigger_breakout" ≡ true)
        × (contains b2.matched "close_holds_trigger" ≡ true)
  unfolding confirms_b2
  confirms_b2-mandatory b2 h = ground arith

  b2_check-HasReached :
      (o : Option B2TriggerSnapshot) (b2 : Option ConditionScore × Bool)
      → b2_check config as_of ordered indicators current anchor o ≡ ok b2
      → b2.1 ≡ true
      → HasReached as_of current o
  unfolding b2_check
  b2_check-HasReached none b2 h e = cc
  b2_check-HasReached (some trigger) b2 h e = elim (Bool-cases (leb trigger.eligible_from as_of)) [
    | inr late ↦ not_confirmed (sym (b2_check-late trigger late) ∙ h)
    | inl early ↦
        let (score, from_score, e₀) =
          >>=-eq-ok (evaluate_b2_confirmation ordered indicators current anchor trigger config) _
            (sym (b2_check-eligible trigger early) ∙ h) in
        let confirmed = ap (λ x. x.1) (ok-injective e₀) ∙ e in
        let (high, close) = confirms_b2-mandatory score confirmed in
        let reached =
          evaluate_b2_confirmation-matched ordered indicators current anchor trigger config score
            from_score in
        record {
          trigger = trigger;
          from = refl;
          is_eligible = early;
          high_reached = sym reached.0 ∙ high;
          close_held = sym reached.1 ∙ close;
        }
  ]
    where
      not_confirmed : ok (none, false) ≡ ok b2 → HasReached as_of current (some trigger)
      not_confirmed k = cc

module _ (ranking : Ranking) (config : StrategyConfig) (day : Day) (t : StrategySignal) where
  module _ (before : Option StrategySignal)
      (v : Evaluated ranking config day.as_of day.ordered day.indicators day.current day.pool
        day.anchor before t) where
    settled :
        Settled config day.as_of day.ordered day.indicators day.current day.anchor before
          (setup_of ranking config day)
          v.levels
          v.judged.patterns
          v.judged.b1
          v.judged.b2
          v.judged.today
          v.decision
    settled =
        settle-Settled config day.as_of day.ordered day.indicators day.current day.anchor before
          (setup_of ranking config day) v.levels v.judged.patterns v.judged.b1 v.judged.b2
          v.judged.today v.decision v.judged.settled

    confirmed-HasReached :
        t.setup_stage ≡ SetupStage.b2_confirmed
        → HasReached day.as_of day.current (prior_trigger before)
    confirmed-HasReached e =
        b2_check-HasReached config day.as_of day.ordered day.indicators day.current day.anchor
          (prior_trigger before) v.judged.b2 v.judged.b2_from
          (next_stage-confirmed _ _ _ _ _ _
            (ap is_b2_confirmed (settled.stage_is ∙ sym v.publishes.stage ∙ e)))

    has_reasons :
        t.setup_stage ≡ SetupStage.invalid → is_empty (all_reasons before v.judged.today) ≡ false
    has_reasons e = was_not _ (
        sym (next_stage-invalid _ _ _ _ _ _)
        ∙ ap is_invalid (settled.stage_is ∙ sym v.publishes.stage ∙ e))
      where
        was_not : (b : Bool) → not b ≡ true → b ≡ false
        was_not true h = cc
        was_not false h = refl

  -- A day confirms B2 only if its high and its close have reached the trigger that the setup's
  -- signal before had frozen, and that was eligible on the day.
  pub signal_on-HasReached :
      (previous : Option StrategySignal)
      → signal_on ranking config day previous ≡ ok t
      → t.setup_stage ≡ SetupStage.b2_confirmed
      → HasReached day.as_of day.current
          (prior_trigger (same_setup previous (setup_of ranking config day)))
  signal_on-HasReached previous h =
      confirmed-HasReached (same_setup previous (setup_of ranking config day)) (
        evaluated ranking config day previous (same_setup previous (setup_of ranking config day)) t
          refl h)

  -- A setup that was not INVALID becomes so only on a day on which its frozen support and its frozen
  -- invalid price are both eligible.
  pub invalid-has_eligible :
      (s : StrategySignal)
      → IsNextDay ranking config day s t
      → is_invalid s.setup_stage ≡ false
      → t.setup_stage ≡ SetupStage.invalid
      → (has (λ x. leb x.eligible_from day.as_of) s.support ≡ true)
        × (has (λ x. leb x.eligible_from day.as_of) s.invalid_price_snapshot ≡ true)
  unfolding frozen_of
  invalid-has_eligible s n valid e =
      let v = evaluated ranking config day (some s) (some s) t n.same n.evaluated in
      let levels =
        day_levels-Eligible config day.as_of day.ordered day.indicators day.current day.anchor
          (frozen_of (some s)) v.levels v.levels_from in
      let (support, price) =
        current_reasons-some config day.as_of day.ordered day.indicators day.current day.anchor
          v.levels v.levels.eligible_support v.levels.eligible_invalid_snapshot v.judged.today
          v.judged.today_from
          (ap is_empty (sym (all_reasons_today s v.judged.today valid))
            ∙ has_reasons (some s) v e) in
      (
        eligible-has (λ x. x.eligible_from) day.as_of s.support
            (sym (is_some-map as_cluster (eligible (λ x. x.eligible_from) day.as_of s.support))
              ∙ ap is_some (sym levels.support)
              ∙ support),
        eligible-has (λ x. x.eligible_from) day.as_of s.invalid_price_snapshot
            (ap is_some (sym levels.invalid_snapshot) ∙ price),
      )
