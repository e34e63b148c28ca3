-- ===== src/State/Frozen/Later.antt =====
-- From when frozen levels are eligible.
use a_share_limit_pullback.Base.{
  ◌+◌, Option, none, some, ok, checked, checked-ok, >>=-eq-ok, ok-injective, ◌≡◌, refl, sym, ap,
  subst, arith,
}
use a_share_limit_pullback.Dates.{Date}
use a_share_limit_pullback.Models.Config.{StrategyConfig}
use a_share_limit_pullback.Models.Market.{DailyBar}
use a_share_limit_pullback.Models.Snapshots.{
  validate_support, validate_invalid_price, validate_resistance, validate_s1,
}
use a_share_limit_pullback.Models.Strategy.{PriceCluster}
use a_share_limit_pullback.State.Frozen.{
  FrozenLevels, Proposal, eligible, freeze, freeze_resistance, freeze_target,
}

-- Not on the day, but from the next.
abbrev pub IsFromNextDay : {A : Type 0} → (A → Date) → Date → Option A → Type 0
IsFromNextDay from as_of o = (eligible from as_of o ≡ none) × (eligible from (as_of + 1) o ≡ o)

next_day_none : {A : Type 0} (from : A → Date) (as_of : Date) → IsFromNextDay from as_of none
unfolding eligible
next_day_none from as_of = (refl, refl)

next_day_some :
    {A : Type 0} (from : A → Date) (as_of : Date) (a : A)
    → from a ≡ as_of + 1
    → IsFromNextDay from as_of (some a)
unfolding eligible
next_day_some from as_of a e = (ground (arith, e), ground (arith, e))

module _ (as_of : Date) where
  freeze_resistance-next_day :
      (o : Option PriceCluster) {r : _}
      → freeze_resistance as_of o ≡ ok r
      → IsFromNextDay (λ x. x.eligible_from) as_of r
  unfolding freeze_resistance
  freeze_resistance-next_day none h =
      subst (IsFromNextDay _ as_of) (ok-injective h) (next_day_none _ as_of)
  freeze_resistance-next_day (some c) h =
      let (r, e₀, e) = >>=-eq-ok (checked "ResistanceSnapshot" validate_resistance _) _ h in
      subst (IsFromNextDay _ as_of) (ok-injective e) (
        next_day_some _ as_of r (
          ap (λ x. x.eligible_from)
            (sym (checked-ok "ResistanceSnapshot" validate_resistance _ e₀).0)))

  freeze_target-next_day :
      (o : Option PriceCluster) {r : _}
      → freeze_target as_of o ≡ ok r
      → IsFromNextDay (λ x. x.eligible_from) as_of r
  unfolding freeze_target
  freeze_target-next_day none h =
      subst (IsFromNextDay _ as_of) (ok-injective h) (next_day_none _ as_of)
  freeze_target-next_day (some c) h =
      let (r, e₀, e) = >>=-eq-ok (checked "S1Snapshot" validate_s1 _) _ h in
      subst (IsFromNextDay _ as_of) (ok-injective e) (
        next_day_some _ as_of r
          (ap (λ x. x.eligible_from) (sym (checked-ok "S1Snapshot" validate_s1 _ e₀).0)))

  -- Levels frozen on a day are not eligible on that day, and are on the next.
  pub freeze-IsFromNextDay :
      (config : StrategyConfig) (current : DailyBar) (p : Proposal) (f : FrozenLevels)
      → freeze as_of config current p ≡ ok f
      → IsFromNextDay (λ x. x.eligible_from) as_of f.support
        × IsFromNextDay (λ x. x.eligible_from) as_of f.invalid_snapshot
        × IsFromNextDay (λ x. x.eligible_from) as_of f.immediate_resistance
        × IsFromNextDay (λ x. x.eligible_from) as_of f.target_s1
  unfolding freeze
  freeze-IsFromNextDay config current p f h =
      let (support, e₀, h₀) = >>=-eq-ok (checked "SupportSnapshot" validate_support _) _ h in
      let (invalid, e₁, h₁) =
        >>=-eq-ok (checked "InvalidPriceSnapshot" validate_invalid_price _) _ h₀ in
      let (immediate, e₂, h₂) = >>=-eq-ok (freeze_resistance as_of p.immediate) _ h₁ in
      let (target, e₃, h₃) = >>=-eq-ok (freeze_target as_of p.target) _ h₂ in
      subst
        (λ (x : FrozenLevels).
          IsFromNextDay (λ x. x.eligible_from) as_of x.support
          × IsFromNextDay (λ x. x.eligible_from) as_of x.invalid_snapshot
          × IsFromNextDay (λ x. x.eligible_from) as_of x.immediate_resistance
          × IsFromNextDay (λ x. x.eligible_from) as_of x.target_s1)
        (ok-injective h₃)
        (
          next_day_some (λ x. x.eligible_from) as_of support
              (ap (λ x. x.eligible_from)
                (sym (checked-ok "SupportSnapshot" validate_support _ e₀).0)),
          next_day_some (λ x. x.eligible_from) as_of invalid
              (ap (λ x. x.eligible_from)
                (sym (checked-ok "InvalidPriceSnapshot" validate_invalid_price _ e₁).0)),
          freeze_resistance-next_day p.immediate e₂,
          freeze_target-next_day p.target e₃,
        )
