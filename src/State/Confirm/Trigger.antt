-- ===== src/State/Confirm/Trigger.antt =====
-- The two conditions of B2 that say that the day has reached the trigger.
use a_share_limit_pullback.Base.{
  Bool, true, false, ◌&&◌, String, str_eq, Option, some, List, [], ◌∷◌, ◌||◌, any, contains, sorted,
  last?, or_raise, stop_iteration, index_error, any-sort_by, text_leb, ok, checked-ok, >>=-eq-ok,
  ◌≡◌, refl, sym, ap, ◌∙◌, arith,
}
use a_share_limit_pullback.Conditions.{
  Results, names_where, is_matched, condition_score, conditions,
}
use a_share_limit_pullback.Decimal.{◌≤𝔻◌}
use a_share_limit_pullback.Models.Config.{StrategyConfig}
use a_share_limit_pullback.Models.Market.{DailyBar}
use a_share_limit_pullback.Models.Snapshots.{B2TriggerSnapshot}
use a_share_limit_pullback.Models.Strategy.{
  AnchorEvaluation, ConditionScore, IndicatorPoint, validate_condition_ids,
}
use a_share_limit_pullback.State.Confirm.{anchor_index, b2_results, evaluate_b2_confirmation}

contains-names_where :
    (test : Option Bool → Bool) (rs : Results) (name : String)
    → contains (names_where test rs) name ≡ any (λ r. str_eq r.0 name && test r.1) rs
unfolding names_where
contains-names_where test [] name = refl
contains-names_where test ((n, r) ∷ rs) name = ground (arith, contains-names_where test rs name)

-- A name is matched in a score if and only if it has the result true.
pub contains-matched :
    (rs : Results) {c : ConditionScore} (name : String)
    → conditions rs ≡ ok c
    → contains c.matched name ≡ any (λ r. str_eq r.0 name && is_matched r.1) rs
unfolding conditions condition_score sorted
contains-matched rs name h =
    ap (λ x. contains x.matched name)
      (sym (checked-ok "ConditionScore" validate_condition_ids (condition_score rs) h).0)
    ∙ any-sort_by text_leb (λ s. str_eq s name) (names_where is_matched rs)
    ∙ contains-names_where is_matched rs name

-- The two mandatory conditions of B2 are matched exactly when the high and the close of the day are
-- at or above the trigger.
pub evaluate_b2_confirmation-matched :
    (ordered : List DailyBar) (indicators : List IndicatorPoint) (current : DailyBar)
    (anchor : AnchorEvaluation) (trigger : B2TriggerSnapshot) (config : StrategyConfig)
    (b2 : ConditionScore)
    → evaluate_b2_confirmation ordered indicators current anchor trigger config ≡ ok b2
    → (contains b2.matched "intraday_trigger_breakout" ≡ (trigger.trigger_price ≤𝔻 current.high))
      × (contains b2.matched "close_holds_trigger" ≡ (trigger.trigger_price ≤𝔻 current.close))
unfolding evaluate_b2_confirmation b2_results
evaluate_b2_confirmation-matched ordered indicators current anchor trigger config b2 h =
    let (index, e₀, h₀) = >>=-eq-ok (or_raise (anchor_index ordered anchor) stop_iteration) _ h in
    let (point, e₁, h₁) = >>=-eq-ok (or_raise (last? indicators) index_error) _ h₀ in
    (
      contains-matched _ "intraday_trigger_breakout" h₁ ∙ one_test _,
      contains-matched _ "close_holds_trigger" h₁ ∙ one_test _,
    )
  where
    one_test : (b : Bool) → ((is_matched (some b)) || false) ≡ b
    one_test true = refl
    one_test false = refl
