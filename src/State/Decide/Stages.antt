-- ===== src/State/Decide/Stages.antt =====
-- Which stage follows which.
use a_share_limit_pullback.Base.{
  Bool, true, false, not, String, Option, none, some, List, [], ◌∷◌, ◌++◌, is_some, is_empty, ok,
  distinct, is_empty-sorted, is_empty-distinct, ◌≡◌, refl, ap, ◌∙◌, arith, subst,
}
use mathlib.Core.Option
use a_share_limit_pullback.State.Identity.{as_cluster}
use a_share_limit_pullback.Dates.{Date}
use a_share_limit_pullback.Models.Config.{StrategyConfig}
use a_share_limit_pullback.Models.Enums.{SetupStage, is_invalid, is_b1_ready}
use a_share_limit_pullback.Models.Market.{DailyBar}
use a_share_limit_pullback.Models.Signal.{StrategySignal}
use a_share_limit_pullback.Models.Snapshots.{InvalidPriceSnapshot, B2TriggerSnapshot}
use a_share_limit_pullback.Models.Strategy.{
  AnchorEvaluation, ConditionScore, IndicatorPoint, PriceCluster,
}
use a_share_limit_pullback.State.Coherent.{IsCoherentAt, IsUnfrozen, can_follow}
use a_share_limit_pullback.State.Decide.{on_anchor_day}
use a_share_limit_pullback.State.Decide.Parts.{Judged, settle-Settled}
use a_share_limit_pullback.State.Frozen.{frozen_of, nothing_frozen, eligible}
use a_share_limit_pullback.State.Levels.{DayLevels, day_levels}
use a_share_limit_pullback.State.Levels.Eligible.{day_levels-Eligible}
use a_share_limit_pullback.State.Publish.{Decision}
use a_share_limit_pullback.State.Transition.{
  prior_trigger, b2_check, current_reasons, all_reasons, was_b1_ready, next_stage,
}

-- What the conditions of the chain are, by the stage before.
abbrev pub ChainAfter : SetupStage → Bool → Bool → Bool → Bool → Type 0
ChainAfter SetupStage.b1_ready invalid confirmed has_trigger after_b1 =
    (confirmed ≡ false) × (has_trigger ≡ false) × (after_b1 ≡ true)
ChainAfter SetupStage.b2_ready invalid confirmed has_trigger after_b1 = has_trigger ≡ true
ChainAfter SetupStage.b2_confirmed invalid confirmed has_trigger after_b1 = has_trigger ≡ true
ChainAfter SetupStage.invalid invalid confirmed has_trigger after_b1 = invalid ≡ true
ChainAfter _ invalid confirmed has_trigger after_b1 =
    (invalid ≡ false) × (confirmed ≡ false) × (has_trigger ≡ false) × (after_b1 ≡ false)

next_stage-follows :
    (p : SetupStage) (invalid confirmed has_trigger after_b1 b1_ready : Bool)
    → ChainAfter p invalid confirmed has_trigger after_b1
    → can_follow p (next_stage invalid false confirmed has_trigger after_b1 b1_ready) ≡ true
unfolding next_stage
next_stage-follows SetupStage.normal i c t b r h = ground arith
next_stage-follows _ i c t b r h = ground arith

module _ (config : StrategyConfig) (as_of : Date) (ordered : List DailyBar)
    (indicators : List IndicatorPoint) (current : DailyBar) (anchor : AnchorEvaluation) where
  pub b2_check-none :
      (o : Option B2TriggerSnapshot) {b2 : Option ConditionScore × Bool}
      → o ≡ none
      → b2_check config as_of ordered indicators current anchor o ≡ ok b2
      → b2.1 ≡ false
  unfolding b2_check
  b2_check-none none e h = cc
  b2_check-none (some t) e h = cc

  pub current_reasons-none :
      (levels : DayLevels) (o : Option PriceCluster) (i : Option InvalidPriceSnapshot)
      {today : List String}
      → o ≡ none
      → current_reasons config as_of ordered indicators current anchor levels o i ≡ ok today
      → today ≡ []
  unfolding current_reasons
  current_reasons-none levels none none e h = cc
  current_reasons-none levels none (some i) e h = cc
  current_reasons-none levels (some c) i e h = cc

-- An invalid setup stays invalid: its reasons are kept.
all_reasons_kept :
    (s : StrategySignal) (today : List String)
    → is_invalid s.setup_stage ≡ true
    → is_empty s.invalidation_reasons ≡ false
    → is_empty (all_reasons (some s) today) ≡ false
unfolding all_reasons
all_reasons_kept s today e h = rw e (
    is_empty-sorted (distinct (s.invalidation_reasons ++ today))
    ∙ is_empty-distinct (s.invalidation_reasons ++ today)
    ∙ is_empty-append s.invalidation_reasons today h)
  where
    is_empty-append : (xs ys : List String) → is_empty xs ≡ false → is_empty (xs ++ ys) ≡ false
    is_empty-append [] ys k = cc
    is_empty-append (x ∷ xs) ys k = refl

pub all_reasons_today :
    (s : StrategySignal) (today : List String)
    → is_invalid s.setup_stage ≡ false
    → all_reasons (some s) today ≡ today
unfolding all_reasons
all_reasons_today s today e = rw e

module _ (config : StrategyConfig) (as_of : Date) (ordered : List DailyBar)
    (indicators : List IndicatorPoint) (current : DailyBar) (anchor : AnchorEvaluation)
    (setup_id : String) (s : StrategySignal) (levels : DayLevels) (d : Decision)
    (levels_from : day_levels config as_of ordered indicators current anchor (frozen_of (some s))
      ≡ ok levels)
    (judged : Judged config as_of ordered indicators current anchor
      (some s)
      setup_id
      levels
      d) where
  no_eligible_support : frozen_of (some s) ≡ nothing_frozen → levels.eligible_support ≡ none
  unfolding eligible
  no_eligible_support e =
      (day_levels-Eligible config as_of ordered indicators current anchor (frozen_of (some s))
        levels levels_from).support
      ∙ ap (λ f. Option.map as_cluster (eligible (λ x. x.eligible_from) as_of f.support)) e

  chain_unfrozen :
      IsUnfrozen s
      → is_invalid s.setup_stage ≡ false
      → is_b1_ready s.setup_stage ≡ false
      → (not (is_empty (all_reasons (some s) judged.today)) ≡ false)
        × (judged.b2.1 ≡ false)
        × (is_some (prior_trigger (some s)) ≡ false)
        × (was_b1_ready (some s) ≡ false)
  unfolding prior_trigger was_b1_ready
  chain_unfrozen (e, t) not_invalid not_b1 = (
    ap (λ r. not (is_empty r))
        (all_reasons_today s judged.today not_invalid
          ∙ current_reasons-none config as_of ordered indicators current anchor levels
              levels.eligible_support levels.eligible_invalid_snapshot (no_eligible_support e)
              judged.today_from),
    b2_check-none config as_of ordered indicators current anchor s.b2_trigger t judged.b2_from,
    ap is_some t,
    not_b1,
  )

  pub chain_after :
      (p : SetupStage)
      → s.setup_stage ≡ p
      → IsCoherentAt p s
      → ChainAfter p
          (not (is_empty (all_reasons (some s) judged.today)))
          judged.b2.1
          (is_some (prior_trigger (some s)))
          (was_b1_ready (some s))
  unfolding prior_trigger was_b1_ready
  chain_after SetupStage.b1_ready e h = (
    b2_check-none config as_of ordered indicators current anchor s.b2_trigger h.1 judged.b2_from,
    ap is_some h.1,
    ap is_b1_ready e,
  )
  chain_after SetupStage.b2_ready e h = h.1
  chain_after SetupStage.b2_confirmed e h = h.1
  chain_after SetupStage.invalid e h =
      ap not (all_reasons_kept s judged.today (ap is_invalid e) h.1)
  chain_after SetupStage.normal e h = chain_unfrozen h (ap is_invalid e) (ap is_b1_ready e)
  chain_after SetupStage.limit_anchor e h = chain_unfrozen h (ap is_invalid e) (ap is_b1_ready e)
  chain_after SetupStage.watch_pullback e h = chain_unfrozen h (ap is_invalid e) (ap is_b1_ready e)

  -- On a later day than the anchor's, a decision about a setup moves its stage as `can_follow` says.
  pub decide-follows :
      IsCoherentAt s.setup_stage s
      → on_anchor_day config as_of ordered indicators current anchor (some s) setup_id ≡ false
      → can_follow s.setup_stage d.stage ≡ true
  decide-follows h later =
      let settled =
        settle-Settled config as_of ordered indicators current anchor (some s) setup_id levels
          judged.patterns judged.b1 judged.b2 judged.today d judged.settled in
      subst (λ q. can_follow s.setup_stage q ≡ true) settled.stage_is
        (rw later (next_stage-follows s.setup_stage _ _ _ _ _ (chain_after s.setup_stage refl h)))
