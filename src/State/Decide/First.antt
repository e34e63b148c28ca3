-- ===== src/State/Decide/First.antt =====
-- The first decision about a setup: no signal of it came before.
use a_share_limit_pullback.Base.{
  Bool, true, false, not, String, none, List, is_empty, ok, ◌≡◌, refl, sym, ap, ◌∙◌, subst,
}
use a_share_limit_pullback.Dates.{Date}
use a_share_limit_pullback.Models.Config.{StrategyConfig}
use a_share_limit_pullback.Models.Enums.{is_b1_ready}
use a_share_limit_pullback.Models.Market.{DailyBar}
use a_share_limit_pullback.Models.Strategy.{AnchorEvaluation, IndicatorPoint}
use a_share_limit_pullback.State.Decide.Fits.{
  FitsStage, FrozenBoth, trigger_after-kept, proposal_when_ready, freeze_when_ready,
}
use a_share_limit_pullback.State.Decide.Parts.{Judged, Settled, settle-Settled}
use a_share_limit_pullback.State.Decide.Stages.{b2_check-none, current_reasons-none}
use a_share_limit_pullback.State.Frozen.{frozen_of, eligible}
use a_share_limit_pullback.State.Levels.{DayLevels, day_levels, proposal_of}
use a_share_limit_pullback.State.Levels.Eligible.{day_levels-Eligible}
use a_share_limit_pullback.State.Publish.{Decision}
use a_share_limit_pullback.State.Transition.{
  next_stage, trigger_after, freezes_trigger, all_reasons, prior_trigger, was_b1_ready,
}

module _ (config : StrategyConfig) (as_of : Date) (ordered : List DailyBar) where
  first_fits :
      (i day c t b r : Bool) (d : Decision)
      → (r ≡ true → is_b1_ready (next_stage i day c t b r) ≡ true → FrozenBoth d.frozen)
      → (i ≡ false) × (c ≡ false) × (t ≡ false) × (b ≡ false)
      → trigger_after (freezes_trigger i day c t b) none ordered as_of config ≡ ok d.trigger
      → FitsStage (next_stage i day c t b r) d
  unfolding next_stage freezes_trigger
  first_fits false true false false false r d f h t = trigger_after-kept config as_of ordered none t
  first_fits false false false false false true d f h t =
      (f refl refl, trigger_after-kept config as_of ordered none t)
  first_fits false false false false false false d f h t =
      trigger_after-kept config as_of ordered none t
  first_fits _ _ _ _ _ r d f h t = cc

module _ (config : StrategyConfig) (as_of : Date) (ordered : List DailyBar)
    (indicators : List IndicatorPoint) (current : DailyBar) (anchor : AnchorEvaluation)
    (setup_id : String) (levels : DayLevels) (d : Decision)
    (levels_from : day_levels config as_of ordered indicators current anchor (frozen_of none)
      ≡ ok levels)
    (judged : Judged config as_of ordered indicators current anchor none setup_id levels d) where
  settled :
      Settled config as_of ordered indicators current anchor none setup_id levels judged.patterns
        judged.b1 judged.b2 judged.today d
  settled =
      settle-Settled config as_of ordered indicators current anchor none setup_id levels
        judged.patterns judged.b1 judged.b2 judged.today d judged.settled

  no_support : levels.eligible_support ≡ none
  unfolding frozen_of eligible
  no_support =
      (day_levels-Eligible config as_of ordered indicators current anchor (frozen_of none) levels
        levels_from).support

  no_reasons : not (is_empty (all_reasons none judged.today)) ≡ false
  unfolding all_reasons
  no_reasons =
      ap (λ r. not (is_empty r))
        (current_reasons-none config as_of ordered indicators current anchor levels
          levels.eligible_support levels.eligible_invalid_snapshot no_support judged.today_from)

  no_confirmation : judged.b2.1 ≡ false
  unfolding prior_trigger
  no_confirmation =
      b2_check-none config as_of ordered indicators current anchor none refl judged.b2_from

  -- The first decision fits its stage.
  pub first-FitsStage : FitsStage d.stage d
  unfolding prior_trigger was_b1_ready frozen_of
  first-FitsStage =
      subst (λ q. FitsStage q d) settled.stage_is
        (first_fits config as_of ordered _ _ _ _ _ _ d
          (λ ready b1.
            freeze_when_ready config as_of current d.stage (frozen_of none) (proposal_of levels)
              (ap is_b1_ready (sym settled.stage_is) ∙ b1) refl
              (proposal_when_ready config levels judged.b1 ready) settled.frozen_from)
          (no_reasons, no_confirmation, refl, refl) settled.trigger_from)
