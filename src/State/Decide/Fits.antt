-- ===== src/State/Decide/Fits.antt =====
-- What a decision for a stage comes with, from the trigger and the levels that it freezes.
use a_share_limit_pullback.Base.{
  Bool, true, false, not, Option, none, some, List, is_some, is_empty, ok, ◌≡◌, refl, ap, ◌∙◌,
  arith,
}
use a_share_limit_pullback.Dates.{Date}
use a_share_limit_pullback.Models.Config.{StrategyConfig}
use a_share_limit_pullback.Models.Enums.{SetupStage, is_b1_ready}
use a_share_limit_pullback.Models.Market.{DailyBar}
use a_share_limit_pullback.Models.Snapshots.{B2TriggerSnapshot}
use a_share_limit_pullback.Models.Strategy.{ConditionScore}
use a_share_limit_pullback.State.Frozen.{FrozenLevels, Proposal, frozen_after, freeze}
use a_share_limit_pullback.State.Levels.{DayLevels, proposal_of}
use a_share_limit_pullback.State.Publish.{Decision}
use a_share_limit_pullback.State.Transition.{
  next_stage, trigger_after, freezes_trigger, is_ready_for_b1,
}

module _ (config : StrategyConfig) (as_of : Date) (current : DailyBar) where
  -- A frozen support stays, with all that was frozen beside it.
  pub frozen_after-kept :
      (stage : SetupStage) (prior : FrozenLevels) (p : Option Proposal) {f : FrozenLevels}
      → is_some prior.support ≡ true
      → frozen_after as_of config current stage prior p ≡ ok f
      → f ≡ prior
  unfolding frozen_after
  frozen_after-kept stage prior none h e = cc
  frozen_after-kept stage prior (some p) h e = ground arith

  frozen_after-other :
      (stage : SetupStage) (prior : FrozenLevels) (p : Option Proposal) {f : FrozenLevels}
      → is_b1_ready stage ≡ false
      → frozen_after as_of config current stage prior p ≡ ok f
      → f ≡ prior
  unfolding frozen_after
  frozen_after-other stage prior none h e = cc
  frozen_after-other stage prior (some p) h e = ground arith

  freeze-levels :
      (p : Proposal) {f : FrozenLevels}
      → freeze as_of config current p ≡ ok f
      → (is_some f.support ≡ true) × (is_some f.invalid_snapshot ≡ true)
  unfolding freeze
  freeze-levels p e = ground arith

abbrev pub FrozenBoth : FrozenLevels → Type 0
FrozenBoth f = (is_some f.support ≡ true) × (is_some f.invalid_snapshot ≡ true)

-- What a decision for a stage comes with.
abbrev pub FitsStage : SetupStage → Decision → Type 0
FitsStage SetupStage.b1_ready d = FrozenBoth d.frozen × (d.trigger ≡ none)
FitsStage SetupStage.b2_ready d = FrozenBoth d.frozen × (is_some d.trigger ≡ true)
FitsStage SetupStage.b2_confirmed d = FrozenBoth d.frozen × (is_some d.trigger ≡ true)
FitsStage SetupStage.invalid d = FrozenBoth d.frozen × (is_empty d.invalidation_reasons ≡ false)
FitsStage _ d = d.trigger ≡ none

module _ (config : StrategyConfig) (as_of : Date) (ordered : List DailyBar)
    (prior : Option B2TriggerSnapshot) where
  pub trigger_after-kept :
      {after : Option B2TriggerSnapshot}
      → trigger_after false prior ordered as_of config ≡ ok after
      → after ≡ prior
  unfolding trigger_after
  trigger_after-kept e = cc

  trigger_after-new :
      {after : Option B2TriggerSnapshot}
      → trigger_after true prior ordered as_of config ≡ ok after
      → is_some after ≡ true
  unfolding trigger_after
  trigger_after-new e = ground arith

  pub after_b1 :
      (i c t b r : Bool) (d : Decision)
      → is_empty d.invalidation_reasons ≡ not i
      → FrozenBoth d.frozen
      → (c ≡ false) × (t ≡ false) × (b ≡ true)
      → trigger_after (freezes_trigger i false c t b) prior ordered as_of config ≡ ok d.trigger
      → FitsStage (next_stage i false c t b r) d
  unfolding next_stage freezes_trigger
  after_b1 true false false true r d e f h t = (f, e)
  after_b1 false false false true r d e f h t = (f, trigger_after-new t)
  after_b1 i _ _ _ r d e f h t = cc

  pub after_trigger :
      (i c t b r : Bool) (d : Decision)
      → is_empty d.invalidation_reasons ≡ not i
      → FrozenBoth d.frozen
      → t ≡ true
      → is_some prior ≡ true
      → trigger_after (freezes_trigger i false c t b) prior ordered as_of config ≡ ok d.trigger
      → FitsStage (next_stage i false c t b r) d
  unfolding next_stage freezes_trigger
  after_trigger i c false b r d e f h some_prior t = cc
  after_trigger true c true b r d e f h some_prior t = (f, e)
  after_trigger false true true b r d e f h some_prior t =
      (f, ap is_some (trigger_after-kept t) ∙ some_prior)
  after_trigger false false true b r d e f h some_prior t =
      (f, ap is_some (trigger_after-kept t) ∙ some_prior)

  pub after_invalid :
      (i c t b r : Bool) (d : Decision)
      → is_empty d.invalidation_reasons ≡ not i
      → FrozenBoth d.frozen
      → i ≡ true
      → FitsStage (next_stage i false c t b r) d
  unfolding next_stage
  after_invalid true c t b r d e f h = (f, e)
  after_invalid false c t b r d e f h = cc

  pub after_unfrozen :
      (i c t b r : Bool) (d : Decision)
      → (r ≡ true
          → is_b1_ready (next_stage false false false false false r) ≡ true
          → FrozenBoth d.frozen)
      → (i ≡ false) × (c ≡ false) × (t ≡ false) × (b ≡ false)
      → prior ≡ none
      → trigger_after (freezes_trigger i false c t b) prior ordered as_of config ≡ ok d.trigger
      → FitsStage (next_stage i false c t b r) d
  unfolding next_stage freezes_trigger
  after_unfrozen false false false false true d f h no_prior t =
      (f refl refl, trigger_after-kept t ∙ no_prior)
  after_unfrozen false false false false false d f h no_prior t = trigger_after-kept t ∙ no_prior
  after_unfrozen _ _ _ _ r d f h no_prior t = cc

pub proposal_when_ready :
    (config : StrategyConfig) (levels : DayLevels) (b1 : ConditionScore)
    → is_ready_for_b1 config levels b1 ≡ true
    → is_some (proposal_of levels) ≡ true
unfolding is_ready_for_b1 proposal_of
proposal_when_ready config levels b1 h = ground arith

pub freeze_when_ready :
    (config : StrategyConfig) (as_of : Date) (current : DailyBar) (stage : SetupStage)
    (prior : FrozenLevels) (p : Option Proposal) {f : FrozenLevels}
    → is_b1_ready stage ≡ true
    → is_some prior.support ≡ false
    → is_some p ≡ true
    → frozen_after as_of config current stage prior p ≡ ok f
    → FrozenBoth f
unfolding frozen_after
freeze_when_ready config as_of current stage prior none b1 fresh q e = cc
freeze_when_ready config as_of current stage prior (some p) {f} b1 fresh q e =
    freeze-levels config as_of current p {f = f} (ground arith)
