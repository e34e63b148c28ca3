-- ===== src/Plans/Clear.antt =====
-- A plan that is actionable has nothing against it.
use a_share_limit_pullback.Base.{
  Bool, true, false, not, ◌&&◌, ◌||◌, Option, List, [], ◌∷◌, ◌++◌, String, if◌then◌else◌, All,
  is_empty, sorted, distinct, ok, ok-injective, >>=-eq-ok, ◌≡◌, refl, sym, ap, ◌∙◌, arith,
}
use a_share_limit_pullback.Dates.{Date}
use a_share_limit_pullback.Models.Config.{StrategyConfig}
use a_share_limit_pullback.Models.Enums.{
  EventFlag, SetupStage, is_actionable, is_invalid, is_unusable, room_is_none, is_b1_ready,
}
use a_share_limit_pullback.Models.Labels.{ExecutionLabel, label_is_b1_prep}
use a_share_limit_pullback.Models.Market.{DailyBar}
use a_share_limit_pullback.Models.Signal.{StrategySignal, flagged, has, is_entry_candidate}
use a_share_limit_pullback.Models.Strategy.{PriceCluster}
use a_share_limit_pullback.Models.TradePlan.{
  TradePlan, TradePlanConfig, check_label, is_watch_pullback, label_is_watch_only,
}
use a_share_limit_pullback.Plans.Build.{Provenance, label_at, plan_fields, prices_of}
use a_share_limit_pullback.Plans.Conditions.{
  because, cancel_conditions, concat, prep_conditions, prep_reasons, prep_tests,
}
use a_share_limit_pullback.Plans.Facts.{no_distribution_damage}

-- Nothing of the signal cancels a plan.
record IsClear (signal : StrategySignal) : Type 0 where
  valid : is_invalid signal.setup_stage ≡ false
  usable : is_unusable signal.data_quality ≡ false
  below_s2 : flagged EventFlag.s2_exhausted signal ≡ false
  below_s1 : flagged EventFlag.s1_breakout signal ≡ false
  roomy : has room_is_none signal.entry_room_state ≡ false

actionable-valid : (stage : SetupStage) → is_actionable stage ≡ true → is_invalid stage ≡ false
actionable-valid stage h = ground (arith, h)

candidate_parts :
    (a u x y z : Bool)
    → (a && not u && not x && not y && not z) ≡ true
    → (a ≡ true) × (u ≡ false) × (x ≡ false) × (y ≡ false) × (z ≡ false)
candidate_parts a u x y z h = ground (arith, h)

is_entry_candidate-IsClear :
    (signal : StrategySignal) → is_entry_candidate signal ≡ true → IsClear signal
unfolding is_entry_candidate
is_entry_candidate-IsClear signal h =
    let (stage, quality, s2, s1, room) = candidate_parts _ _ _ _ _ h in
    record {
      valid = actionable-valid signal.setup_stage stage;
      usable = quality;
      below_s2 = s2;
      below_s1 = s1;
      roomy = room;
    }

empty_parts :
    (xs ys : List String) → is_empty (xs ++ ys) ≡ true → (is_empty xs ≡ true) × (is_empty ys ≡ true)
empty_parts [] ys h = (refl, h)
empty_parts (x ∷ xs) ys h = cc

All-is_empty :
    (tests : List (List String))
    → is_empty (concat tests) ≡ true
    → All (λ reasons. is_empty reasons ≡ true) tests
unfolding concat
All-is_empty [] h = tt
All-is_empty (xs ∷ tests) h =
    let (here, later) = empty_parts xs (concat tests) h in (here, All-is_empty tests later)

not_because : (test : Bool) (reason : String) → is_empty (because test reason) ≡ true → test ≡ false
not_because test reason h = ground (arith, h)

prep_reasons-IsClear :
    (signal : StrategySignal) (bars : List DailyBar) (current : DailyBar)
    (support : Option PriceCluster) (config : StrategyConfig) (plan_config : TradePlanConfig)
    (undamaged : Bool)
    → is_empty (prep_reasons signal bars current support config plan_config undamaged) ≡ true
    → IsClear signal
unfolding prep_reasons prep_tests
prep_reasons-IsClear signal bars current support config plan_config undamaged h =
    let (anchor, (structure, (invalid, (window, (quality, (s2, (s1, (room, rest)))))))) =
      All-is_empty (prep_tests signal bars current support config plan_config undamaged) h in
    record {
      valid = not_because (is_invalid signal.setup_stage) "INVALID_SETUP" invalid;
      usable = not_because (is_unusable signal.data_quality) "DATA_QUALITY_UNUSABLE" quality;
      below_s2 = not_because (flagged EventFlag.s2_exhausted signal) "S2_EXHAUSTED" s2;
      below_s1 = not_because (flagged EventFlag.s1_breakout signal) "S1_BREAKOUT" s1;
      roomy = not_because (has room_is_none signal.entry_room_state) "ENTRY_ROOM_NONE" room;
    }

-- without reasons of its own, a clear signal's plan has none
cancel_conditions-clear :
    (signal : StrategySignal) → IsClear signal → cancel_conditions signal [] [] ≡ []
unfolding cancel_conditions sorted distinct
cancel_conditions-clear signal c =
    rw (cancel_conditions, c.valid, c.usable, c.below_s2, c.below_s1, c.roomy) refl

module _ (signal : StrategySignal) where
  -- When a plan is allowed, its signal is clear and the reasons that it takes over are none.
  IsAllowed : ExecutionLabel → List String → Type 0
  IsAllowed label reasons =
      IsClear signal
      × ((if label_is_b1_prep label || label_is_watch_only label then reasons else []) ≡ [])

  at_stage-IsAllowed :
      (prep_ok : Bool) (reasons : List String) (stage : SetupStage)
      → (prep_ok ≡ true → IsClear signal × (reasons ≡ []))
      → (label_at signal prep_ok stage).1 ≡ true
      → IsAllowed (label_at signal prep_ok stage).0 reasons
  unfolding IsAllowed
  at_stage-IsAllowed true reasons SetupStage.watch_pullback clear h = clear refl
  at_stage-IsAllowed false reasons SetupStage.watch_pullback clear h = cc
  at_stage-IsAllowed prep_ok reasons SetupStage.b1_ready clear h =
      (is_entry_candidate-IsClear signal h, refl)
  at_stage-IsAllowed prep_ok reasons SetupStage.b2_ready clear h =
      (is_entry_candidate-IsClear signal h, refl)
  at_stage-IsAllowed prep_ok reasons SetupStage.b2_confirmed clear h =
      (is_entry_candidate-IsClear signal h, refl)
  at_stage-IsAllowed prep_ok reasons SetupStage.normal clear h = cc
  at_stage-IsAllowed prep_ok reasons SetupStage.limit_anchor clear h = cc
  at_stage-IsAllowed prep_ok reasons SetupStage.invalid clear h = cc

  -- the label fits the stage and the permission
  at_stage-fits :
      (prep_ok above : Bool) (stage : SetupStage)
      → let label = label_at signal prep_ok stage in
        ((not (label_is_b1_prep label.0) || is_watch_pullback stage || is_b1_ready stage)
          && not ((label.1 && not above) && label_is_watch_only label.0))
        ≡ true
  at_stage-fits true above SetupStage.watch_pullback = ground arith
  at_stage-fits false above SetupStage.watch_pullback = ground arith
  at_stage-fits prep_ok above SetupStage.b1_ready = ground arith
  at_stage-fits prep_ok above SetupStage.b2_ready = ground arith
  at_stage-fits prep_ok above SetupStage.b2_confirmed = ground arith
  at_stage-fits prep_ok above SetupStage.normal = ground arith
  at_stage-fits prep_ok above SetupStage.limit_anchor = ground arith
  at_stage-fits prep_ok above SetupStage.invalid = ground arith

combined :
    (x y allowed inside unusable : Bool)
    → (x && y) ≡ true
    → (allowed ≡ true → unusable ≡ false)
    → (x && y && not ((allowed && inside) && unusable)) ≡ true
combined x y true inside unusable h k = rw (k refl) (ground (arith, h))
combined x y false inside unusable h k = ground (arith, h)

no_reasons : (reasons : List String) → is_empty reasons ≡ true → sorted (distinct reasons) ≡ []
unfolding sorted distinct
no_reasons [] h = refl
no_reasons (x ∷ xs) h = cc

module _ (signal : StrategySignal) (config : StrategyConfig) (plan_config : TradePlanConfig)
    (provenance : Provenance) (plan_date : Date) (next_date : Option Date) (bars : List DailyBar)
    (current : DailyBar) (support : Option PriceCluster) (prep : Bool × List String)
    (prepared : prep_conditions signal bars current support config plan_config ≡ ok prep) where
  prep-IsClear : prep.0 ≡ true → IsClear signal × (prep.1 ≡ [])
  unfolding prep_conditions
  prep-IsClear h =
      let (undamaged, e, h₀) =
        >>=-eq-ok (no_distribution_damage bars current signal config) _ prepared in
      let same = ok-injective h₀ in
      let empty = ap (λ p. p.0) same ∙ h in
      (
        prep_reasons-IsClear signal bars current support config plan_config undamaged empty,
        sym (ap (λ p. p.1) same) ∙ no_reasons _ empty,
      )

  abbrev plan : TradePlan
  plan =
      plan_fields signal config plan_config provenance plan_date next_date bars current support prep

  -- A plan that is actionable has no cancel condition.
  pub plan_fields-cancel_conditions : plan.is_actionable ≡ true → plan.cancel_conditions ≡ []
  unfolding plan_fields IsAllowed
  plan_fields-cancel_conditions h =
      let (allowed, inside) = and_parts _ _ h in
      let (clear, none_left) =
        at_stage-IsAllowed signal prep.0 prep.1 signal.setup_stage prep-IsClear allowed in
      rw (none_left, not-true _ inside) (cancel_conditions-clear signal clear)
    where
      and_parts : (a b : Bool) → (a && b) ≡ true → (a ≡ true) × (b ≡ true)
      and_parts a b k = ground (arith, k)

      not-true : (a : Bool) → not a ≡ true → a ≡ false
      not-true a k = ground (arith, k)

  -- A plan passes the validator's checks of its label: B1_PREP stands at WATCH_PULLBACK or B1_READY,
  -- and an actionable plan is not WATCH_ONLY and its data are not UNUSABLE.
  pub plan_fields-check_label : check_label plan ≡ true
  unfolding plan_fields check_label IsAllowed
  plan_fields-check_label =
      let label = label_at signal prep.0 signal.setup_stage in
      let above = (prices_of config current signal support label.0).above_zone in
      combined
        (not (label_is_b1_prep label.0)
          || is_watch_pullback signal.setup_stage
          || is_b1_ready signal.setup_stage)
        (not ((label.1 && not above) && label_is_watch_only label.0)) label.1 (not above)
        (is_unusable signal.data_quality) (at_stage-fits signal prep.0 above signal.setup_stage)
        (λ allowed.
          (at_stage-IsAllowed signal prep.0 prep.1 signal.setup_stage prep-IsClear
            allowed).0.usable)
