-- ===== src/State/Events/Flags.antt =====
-- Which event flags a day can have.
use a_share_limit_pullback.Base.{
  false, not, ◌&&◌, Option, List, ◌++◌, map, keep, if◌then◌else◌, any-keep, any-keep-le, ok,
  ok-injective, >>=-eq-ok, ◌≡◌, refl, sym, arith,
}
use a_share_limit_pullback.Decimal.{Decimal}
use a_share_limit_pullback.Models.Config.{StrategyConfig}
use a_share_limit_pullback.Models.Enums.{SetupStage, EventFlag, flag_eq, is_invalid}
use a_share_limit_pullback.Models.Market.{DailyBar}
use a_share_limit_pullback.Models.Strategy.{IndicatorPoint, PriceCluster}
use a_share_limit_pullback.State.Entry.{has_flag}
use a_share_limit_pullback.State.Events.{
  Added, EventReasons, added_flag, settle, event_reasons, reasons_for, evaluate_event_flags,
  support_warnings, s1_events,
}

flags_of : EventReasons → List EventFlag
flags_of = map (λ e. e.0)

-- A flag is reported if and only if a reason for it was added.
has_flag-event_reasons :
    (f : EventFlag) (added : Added)
    → has_flag f (map (λ e. e.0) (event_reasons added)) ≡ added_flag f added
unfolding event_reasons reasons_for
has_flag-event_reasons EventFlag.near_s1 added = ground arith
has_flag-event_reasons EventFlag.s1_breakout added = ground arith
has_flag-event_reasons EventFlag.s2_exhausted added = ground arith
has_flag-event_reasons EventFlag.support_warning added = ground arith

flag_disjoint :
    (f : EventFlag) → (flag_eq EventFlag.near_s1 f && not (flag_eq EventFlag.near_s1 f)) ≡ false
flag_disjoint EventFlag.near_s1 = refl
flag_disjoint EventFlag.s1_breakout = refl
flag_disjoint EventFlag.s2_exhausted = refl
flag_disjoint EventFlag.support_warning = refl

settle-exclusive :
    (stage : SetupStage) (added : Added)
    → (added_flag EventFlag.s1_breakout (settle stage added)
        && added_flag EventFlag.near_s1 (settle stage added))
      ≡ false
unfolding settle
settle-exclusive stage added =
    after_discard
      (if is_invalid stage then keep (λ e. flag_eq EventFlag.s2_exhausted e.0) added else added)
  where
    after_discard :
        (kept : Added)
        → (added_flag EventFlag.s1_breakout (
              if added_flag EventFlag.s1_breakout kept
              then keep (λ e. not (flag_eq EventFlag.near_s1 e.0)) kept
              else kept)
            && added_flag EventFlag.near_s1 (
                if added_flag EventFlag.s1_breakout kept
                then keep (λ e. not (flag_eq EventFlag.near_s1 e.0)) kept
                else kept))
          ≡ false
    after_discard kept = ground (
      arith,
      any-keep (λ e. flag_eq EventFlag.near_s1 e.0) (λ e. not (flag_eq EventFlag.near_s1 e.0)) kept
          (λ e. flag_disjoint e.0),
    )

settle-invalid :
    (f : EventFlag) (added : Added)
    → flag_eq EventFlag.s2_exhausted f ≡ false
    → added_flag f (settle SetupStage.invalid added) ≡ false
unfolding settle
settle-invalid f added h = discarded _ (any-keep _ _ added (λ e. other f e.0 h))
  where
    other :
        (a b : EventFlag)
        → flag_eq EventFlag.s2_exhausted a ≡ false
        → (flag_eq a b && flag_eq EventFlag.s2_exhausted b) ≡ false
    other a EventFlag.near_s1 k = ground arith
    other a EventFlag.s1_breakout k = ground arith
    other a EventFlag.support_warning k = ground arith
    other EventFlag.near_s1 EventFlag.s2_exhausted k = refl
    other EventFlag.s1_breakout EventFlag.s2_exhausted k = refl
    other EventFlag.support_warning EventFlag.s2_exhausted k = refl
    other EventFlag.s2_exhausted EventFlag.s2_exhausted k = cc

    discarded :
        (kept : Added)
        → added_flag f kept ≡ false
        → added_flag f (
            if added_flag EventFlag.s1_breakout kept
            then keep (λ e. not (flag_eq EventFlag.near_s1 e.0)) kept
            else kept)
          ≡ false
    discarded kept k =
        ground
          (arith, any-keep-le (λ e. flag_eq f e.0) (λ e. not (flag_eq EventFlag.near_s1 e.0)) kept)

module _ (ordered : List DailyBar) (indicators : List IndicatorPoint) (current : DailyBar)
    (support : Option PriceCluster) (invalid_price : Option Decimal) (s1 : Option PriceCluster)
    (config : StrategyConfig) where
  settled_events :
      (stage : SetupStage) {r : List EventFlag × EventReasons}
      → evaluate_event_flags ordered indicators current support invalid_price s1 stage config ≡ ok r
      → (added : Added) × (r ≡ (
        map (λ e. e.0) (event_reasons (settle stage added)),
        event_reasons (settle stage added),
      ))
  unfolding evaluate_event_flags
  settled_events stage h =
      let (at_s1, e₀, h₀) = >>=-eq-ok (s1_events config ordered current indicators s1) _ h in
      (
        support_warnings config ordered current support invalid_price ++ at_s1,
        sym (ok-injective h₀),
      )

  -- The flags of a day never have both S1_BREAKOUT and NEAR_S1.
  pub evaluate_event_flags-exclusive :
      (stage : SetupStage) (r : List EventFlag × EventReasons)
      → evaluate_event_flags ordered indicators current support invalid_price s1 stage config ≡ ok r
      → (has_flag EventFlag.s1_breakout r.0 && has_flag EventFlag.near_s1 r.0) ≡ false
  evaluate_event_flags-exclusive stage r h =
      let (added, e) = settled_events stage h in
      rw e (
        rw (has_flag-event_reasons EventFlag.s1_breakout (settle stage added)) (
          rw (has_flag-event_reasons EventFlag.near_s1 (settle stage added))
            (settle-exclusive stage added)))

  -- At INVALID, a day has no flag but S2_EXHAUSTED.
  pub evaluate_event_flags-invalid :
      (f : EventFlag) (r : List EventFlag × EventReasons)
      → flag_eq EventFlag.s2_exhausted f ≡ false
      → evaluate_event_flags ordered indicators current support invalid_price s1 SetupStage.invalid
          config
        ≡ ok r
      → has_flag f r.0 ≡ false
  evaluate_event_flags-invalid f r other h =
      let (added, e) = settled_events SetupStage.invalid h in
      rw e (
        rw (has_flag-event_reasons f (settle SetupStage.invalid added))
          (settle-invalid f added other))
