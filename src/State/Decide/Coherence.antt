-- ===== src/State/Decide/Coherence.antt =====
-- A decision keeps the frozen levels of its setup, and its stage fits them.
use a_share_limit_pullback.Base.{
  Bool, true, false, not, String, none, some, List, is_some, is_empty, ok, ◌≡◌, refl, sym, ap, ◌∙◌,
  subst,
}
use a_share_limit_pullback.Dates.{Date}
use a_share_limit_pullback.Models.Config.{StrategyConfig}
use a_share_limit_pullback.Models.Enums.{SetupStage, is_b1_ready}
use a_share_limit_pullback.Models.Market.{DailyBar}
use a_share_limit_pullback.Models.Signal.{StrategySignal}
use a_share_limit_pullback.Models.Strategy.{AnchorEvaluation, IndicatorPoint}
use a_share_limit_pullback.State.Coherent.{IsUnfrozen, IsCoherentAt, HasLevels}
use a_share_limit_pullback.State.Decide.{on_anchor_day}
use a_share_limit_pullback.State.Decide.Fits.{
  FrozenBoth, FitsStage, frozen_after-kept, after_b1, after_trigger, after_invalid, after_unfrozen,
  proposal_when_ready, freeze_when_ready,
}
use a_share_limit_pullback.State.Decide.Parts.{Judged, Settled, settle-Settled}
use a_share_limit_pullback.State.Decide.Stages.{ChainAfter, chain_after}
use a_share_limit_pullback.State.Frozen.{frozen_of}
use a_share_limit_pullback.State.Levels.{DayLevels, day_levels, proposal_of}
use a_share_limit_pullback.State.Publish.{Decision}
use a_share_limit_pullback.State.Transition.{
  next_stage, trigger_after, freezes_trigger, is_ready_for_b1, all_reasons, prior_trigger,
  was_b1_ready,
}

not-not : (b : Bool) → b ≡ not (not b)
not-not true = refl
not-not false = refl

module _ (config : StrategyConfig) (as_of : Date) (ordered : List DailyBar)
    (indicators : List IndicatorPoint) (current : DailyBar) (anchor : AnchorEvaluation)
    (setup_id : String) (s : StrategySignal) (levels : DayLevels) (d : Decision)
    (levels_from : day_levels config as_of ordered indicators current anchor (frozen_of (some s))
      ≡ ok levels)
    (judged : Judged config as_of ordered indicators current anchor (some s) setup_id levels d)
    (later : on_anchor_day config as_of ordered indicators current anchor (some s) setup_id
      ≡ false) where
  settled :
      Settled config as_of ordered indicators current anchor
        (some s)
        setup_id
        levels
        judged.patterns
        judged.b1
        judged.b2
        judged.today
        d
  settled =
      settle-Settled config as_of ordered indicators current anchor (some s) setup_id levels
        judged.patterns judged.b1 judged.b2 judged.today d judged.settled

  -- The frozen levels of a setup that has a support are those of the signal before.
  pub frozen_kept : is_some s.support ≡ true → d.frozen ≡ frozen_of (some s)
  unfolding frozen_of
  frozen_kept h =
      frozen_after-kept config as_of current d.stage (frozen_of (some s)) (proposal_of levels) h
        settled.frozen_from

  kept_levels : HasLevels s → FrozenBoth d.frozen
  unfolding frozen_of
  kept_levels h = subst FrozenBoth (sym (frozen_kept h.0)) h

  abbrev invalid_now : Bool
  invalid_now = not (is_empty (all_reasons (some s) judged.today))

  abbrev ready_now : Bool
  ready_now = is_ready_for_b1 config levels judged.b1

  abbrev stage_now : SetupStage
  stage_now =
      next_stage invalid_now false judged.b2.1 (is_some (prior_trigger (some s)))
        (was_b1_ready (some s)) ready_now

  stage_is_now : stage_now ≡ d.stage
  stage_is_now =
      subst
        (λ day.
          next_stage invalid_now day judged.b2.1 (is_some (prior_trigger (some s)))
            (was_b1_ready (some s)) ready_now
          ≡ d.stage)
        later settled.stage_is

  trigger_now :
      trigger_after
        (freezes_trigger invalid_now false judged.b2.1
          (is_some (prior_trigger (some s)))
          (was_b1_ready (some s)))
        (prior_trigger (some s))
        ordered
        as_of
        config
      ≡ ok d.trigger
  trigger_now =
      subst
        (λ day.
          trigger_after
            (freezes_trigger invalid_now day judged.b2.1 (is_some (prior_trigger (some s)))
              (was_b1_ready (some s)))
            (prior_trigger (some s)) ordered as_of config
          ≡ ok d.trigger)
        later settled.trigger_from

  reasons_now : is_empty d.invalidation_reasons ≡ not invalid_now
  reasons_now = ap is_empty (sym settled.reasons_are) ∙ not-not _

  b1_frozen : s.support ≡ none → ready_now ≡ true → is_b1_ready d.stage ≡ true → FrozenBoth d.frozen
  unfolding frozen_of
  b1_frozen fresh ready b1 =
      freeze_when_ready config as_of current d.stage (frozen_of (some s)) (proposal_of levels) b1
        (ap is_some fresh) (proposal_when_ready config levels judged.b1 ready) settled.frozen_from

  fits_unfrozen :
      IsUnfrozen s
      → (invalid_now ≡ false)
        × (judged.b2.1 ≡ false)
        × (is_some (prior_trigger (some s)) ≡ false)
        × (was_b1_ready (some s) ≡ false)
      → FitsStage stage_now d
  unfolding frozen_of prior_trigger
  fits_unfrozen (e, no_trigger) (i, c, t, b) =
      after_unfrozen config as_of ordered (prior_trigger (some s)) invalid_now judged.b2.1 _ _
        ready_now d
        (λ ready b1.
          b1_frozen (ap (λ f. f.support) e) ready
            (ap is_b1_ready (sym stage_is_now ∙ rw i (rw c (rw t (rw b refl)))) ∙ b1))
        (i, c, t, b) no_trigger trigger_now

  fits_at :
      (p : SetupStage)
      → s.setup_stage ≡ p
      → IsCoherentAt p s
      → ChainAfter p invalid_now judged.b2.1
          (is_some (prior_trigger (some s)))
          (was_b1_ready (some s))
      → FitsStage stage_now d
  unfolding prior_trigger
  fits_at SetupStage.b1_ready e h after =
      after_b1 config as_of ordered (prior_trigger (some s)) invalid_now judged.b2.1 _ _ ready_now d
        reasons_now (kept_levels h.0) after trigger_now
  fits_at SetupStage.b2_ready e h after =
      after_trigger config as_of ordered (prior_trigger (some s)) invalid_now judged.b2.1 _ _
        ready_now d reasons_now (kept_levels h.0) after h.1 trigger_now
  fits_at SetupStage.b2_confirmed e h after =
      after_trigger config as_of ordered (prior_trigger (some s)) invalid_now judged.b2.1 _ _
        ready_now d reasons_now (kept_levels h.0) after h.1 trigger_now
  fits_at SetupStage.invalid e h after =
      after_invalid config as_of ordered (prior_trigger (some s)) invalid_now judged.b2.1 _ _
        ready_now d reasons_now (kept_levels h.0) after
  fits_at SetupStage.normal e h after = fits_unfrozen h after
  fits_at SetupStage.limit_anchor e h after = fits_unfrozen h after
  fits_at SetupStage.watch_pullback e h after = fits_unfrozen h after

  pub decide-FitsStage : IsCoherentAt s.setup_stage s → FitsStage d.stage d
  decide-FitsStage h =
      subst (λ q. FitsStage q d) stage_is_now
        (fits_at s.setup_stage refl h (
          chain_after config as_of ordered indicators current anchor setup_id s levels d levels_from
            judged s.setup_stage refl h))
