-- ===== src/State/Levels/Eligible.antt =====
-- The eligible levels of a day and the frozen ones.
use a_share_limit_pullback.Base.{
  Option, none, some, List, ok, ◌≡◌, ap, sym, ◌∙◌, >>=-eq-ok, ok-injective, arith,
}
use mathlib.Core.Option
use a_share_limit_pullback.Dates.{Date}
use a_share_limit_pullback.Models.Config.{StrategyConfig}
use a_share_limit_pullback.Models.Market.{DailyBar}
use a_share_limit_pullback.Models.Strategy.{AnchorEvaluation, IndicatorPoint, PriceCluster}
use a_share_limit_pullback.State.Frozen.{FrozenLevels, eligible}
use a_share_limit_pullback.State.Identity.{as_cluster, as_s1_cluster, expected_b2_trigger}
use a_share_limit_pullback.State.Levels.{
  DayLevels, checked_map, computed_support, computed_resistance, day_levels,
}

checked_map-ok :
    {A : Type 0} (f : A → PriceCluster) (o : Option A) {c : Option PriceCluster}
    → checked_map f o ≡ ok c
    → c ≡ Option.map f o
unfolding checked_map
checked_map-ok f none h = cc
checked_map-ok f (some a) h = ground arith

module _ (config : StrategyConfig) (as_of : Date) (ordered : List DailyBar)
    (indicators : List IndicatorPoint) (current : DailyBar) (anchor : AnchorEvaluation) where
  pub record Eligible (prior : FrozenLevels) (l : DayLevels) : Type 0 where
    pub support_snapshot :
        l.eligible_support_snapshot ≡ eligible (λ s. s.eligible_from) as_of prior.support
    pub invalid_snapshot :
        l.eligible_invalid_snapshot ≡ eligible (λ s. s.eligible_from) as_of prior.invalid_snapshot
    pub support :
        l.eligible_support
        ≡ Option.map as_cluster (eligible (λ s. s.eligible_from) as_of prior.support)
    pub target :
        l.eligible_target_s1
        ≡ Option.map as_s1_cluster (eligible (λ s. s.eligible_from) as_of prior.target_s1)

  pub day_levels-Eligible :
      (prior : FrozenLevels) (l : DayLevels)
      → day_levels config as_of ordered indicators current anchor prior ≡ ok l
      → Eligible prior l
  unfolding day_levels
  day_levels-Eligible prior l h =
      let (computed, e₀, h₀) =
        >>=-eq-ok (computed_support config as_of ordered indicators current anchor) _ h in
      let (support, e₁, h₁) =
        >>=-eq-ok (checked_map as_cluster (eligible (λ s. s.eligible_from) as_of prior.support)) _
          h₀ in
      let (s1, e₂, h₂) =
        >>=-eq-ok
          (checked_map as_s1_cluster (eligible (λ s. s.eligible_from) as_of prior.target_s1)) _
          h₁ in
      let (trigger, e₃, h₃) = >>=-eq-ok (expected_b2_trigger ordered config) _ h₂ in
      let (resistance, e₄, h₄) =
        >>=-eq-ok
          (computed_resistance config as_of ordered indicators current anchor prior.support computed
            trigger)
          _ h₃ in
      let e = ok-injective h₄ in
      record {
        support_snapshot = sym (ap (λ x. x.eligible_support_snapshot) e);
        invalid_snapshot = sym (ap (λ x. x.eligible_invalid_snapshot) e);
        support = sym (ap (λ x. x.eligible_support) e) ∙ checked_map-ok _ _ e₁;
        target = sym (ap (λ x. x.eligible_target_s1) e) ∙ checked_map-ok _ _ e₂;
      }
