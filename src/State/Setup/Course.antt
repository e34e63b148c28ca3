-- ===== src/State/Setup/Course.antt =====
-- The course of a setup, day by day, and what holds of each of its signals.
use a_share_limit_pullback.Base.{
  arith, Bool, ◌||◌, String, Outcome, true, false, Option, none, some, List, is_some, is_empty, ok,
  ◌≡◌, refl, sym, ap, ◌∙◌, subst,
}
use a_share_limit_pullback.Dates.{Date}
use a_share_limit_pullback.Models.Config.{StrategyConfig}
use a_share_limit_pullback.Models.Enums.{SetupStage, is_actionable, is_invalid}
use a_share_limit_pullback.Models.Market.{DailyBar, LimitUpRecord}
use a_share_limit_pullback.Models.Score.{Ranking}
use a_share_limit_pullback.Models.Signal.{StrategySignal}
use a_share_limit_pullback.Models.Strategy.{AnchorEvaluation, IndicatorPoint}
use a_share_limit_pullback.State.Coherent.{IsCoherent, IsCoherentAt, can_follow}
use a_share_limit_pullback.State.Decide.{on_anchor_day}
use a_share_limit_pullback.State.Decide.Fits.{FitsStage, FrozenBoth}
use a_share_limit_pullback.State.Decide.Coherence.{decide-FitsStage, frozen_kept}
use a_share_limit_pullback.State.Decide.First.{first-FitsStage}
use a_share_limit_pullback.State.Decide.Stages.{decide-follows}
use a_share_limit_pullback.State.Evaluate.{evaluate_setup}
use a_share_limit_pullback.State.Frozen.{same_setup, frozen_of}
use a_share_limit_pullback.State.Publish.{Decision, published}
use a_share_limit_pullback.State.Setup.{Publishes, Evaluated, evaluate_setup-Evaluated, id_of}

-- The levels of a published signal, by the stage of its decision.
levels-published :
    (as_of : Date) (d : Decision) (t : StrategySignal) (q : SetupStage)
    → Publishes as_of d t
    → d.stage ≡ q
    → frozen_of (some t) ≡ published q d.frozen
levels-published as_of d t q p e = p.levels ∙ ap (λ x. published x d.frozen) e

module _ (as_of : Date) (d : Decision) (t : StrategySignal) (p : Publishes as_of d t) where
  has_levels :
      (q : SetupStage)
      → is_actionable q ≡ true
      → d.stage ≡ q
      → FrozenBoth d.frozen
      → FrozenBoth (frozen_of (some t))
  unfolding published
  has_levels q actionable e f =
      subst FrozenBoth {x = d.frozen} (sym (levels-published as_of d t q p e ∙ rw actionable refl))
        f

  coherent_at : (q : SetupStage) → d.stage ≡ q → FitsStage q d → IsCoherentAt q t
  unfolding frozen_of published
  coherent_at SetupStage.b1_ready e (f, n) =
      (has_levels SetupStage.b1_ready refl e f, p.trigger ∙ n)
  coherent_at SetupStage.b2_ready e (f, n) =
      (has_levels SetupStage.b2_ready refl e f, ap is_some p.trigger ∙ n)
  coherent_at SetupStage.b2_confirmed e (f, n) =
      (has_levels SetupStage.b2_confirmed refl e f, ap is_some p.trigger ∙ n)
  coherent_at SetupStage.invalid e (f, n) = (
    subst FrozenBoth (sym (levels-published as_of d t SetupStage.invalid p e)) f,
    ap is_empty p.reasons_kept ∙ n,
  )
  coherent_at SetupStage.normal e n =
      (levels-published as_of d t SetupStage.normal p e, p.trigger ∙ n)
  coherent_at SetupStage.limit_anchor e n =
      (levels-published as_of d t SetupStage.limit_anchor p e, p.trigger ∙ n)
  coherent_at SetupStage.watch_pullback e n =
      (levels-published as_of d t SetupStage.watch_pullback p e, p.trigger ∙ n)

  published-IsCoherent : FitsStage d.stage d → IsCoherent t
  published-IsCoherent f = subst (λ q. IsCoherentAt q t) (sym p.stage) (coherent_at d.stage refl f)

-- what a day is evaluated with
pub record Day : Type 0 where
  pub as_of : Date
  pub ordered : List DailyBar
  pub indicators : List IndicatorPoint
  pub current : DailyBar
  pub pool : List LimitUpRecord
  pub anchor : AnchorEvaluation

-- the stages with frozen levels
abbrev has_frozen : SetupStage → Bool
has_frozen q = is_actionable q || is_invalid q

has_frozen-follows :
    (p q : SetupStage) → has_frozen p ≡ true → can_follow p q ≡ true → has_frozen q ≡ true
has_frozen-follows SetupStage.normal q f h = cc
has_frozen-follows SetupStage.limit_anchor q f h = cc
has_frozen-follows SetupStage.watch_pullback q f h = cc
has_frozen-follows SetupStage.b1_ready q f h = ground arith
has_frozen-follows SetupStage.b2_ready q f h = ground arith
has_frozen-follows SetupStage.b2_confirmed q f h = ground arith
has_frozen-follows SetupStage.invalid q f h = ground arith

has_frozen-support :
    (q : SetupStage) (s : StrategySignal)
    → IsCoherentAt q s
    → is_some s.support ≡ true
    → has_frozen q ≡ true
unfolding frozen_of
has_frozen-support SetupStage.normal s (e, _) h = ap (λ f. is_some f.support) (sym e) ∙ h
has_frozen-support SetupStage.limit_anchor s (e, _) h = ap (λ f. is_some f.support) (sym e) ∙ h
has_frozen-support SetupStage.watch_pullback s (e, _) h = ap (λ f. is_some f.support) (sym e) ∙ h
has_frozen-support _ s c h = refl

module _ (ranking : Ranking) (config : StrategyConfig) where
  abbrev pub setup_of : Day → String
  setup_of d = id_of ranking config d.as_of d.ordered d.indicators d.current d.pool d.anchor

  abbrev pub signal_on : Day → Option StrategySignal → Outcome StrategySignal
  signal_on d previous =
      evaluate_setup ranking config d.as_of d.ordered d.indicators d.current d.pool d.anchor
        previous

  -- A later day of the setup that the signal `s` is of, on which the engine gives `t`.
  pub record IsNextDay (day : Day) (s t : StrategySignal) : Type 0 where
    pub same : same_setup (some s) (setup_of day) ≡ some s
    pub later :
        on_anchor_day config day.as_of day.ordered day.indicators day.current day.anchor
          (some s)
          (setup_of day)
        ≡ false
    pub evaluated : signal_on day (some s) ≡ ok t

  -- The signals of a setup: the first with none of it before, each of the others from the one before.
  pub data Reached : StrategySignal → Type 0 where
    first :
        (day : Day) (previous : Option StrategySignal) {t : StrategySignal}
        → same_setup previous (setup_of day) ≡ none
        → signal_on day previous ≡ ok t
        → Reached t
    next : (day : Day) {s t : StrategySignal} → Reached s → IsNextDay day s t → Reached t

  pub evaluated :
      (day : Day) (previous before : Option StrategySignal) (t : StrategySignal)
      → same_setup previous (setup_of day) ≡ before
      → signal_on day previous ≡ ok t
      → Evaluated ranking config day.as_of day.ordered day.indicators day.current day.pool
          day.anchor before t
  evaluated day previous before t same h =
      subst
        (λ o.
          Evaluated ranking config day.as_of day.ordered day.indicators day.current day.pool
            day.anchor o t)
        same
        (evaluate_setup-Evaluated ranking config day.as_of day.ordered day.indicators day.current
          day.pool day.anchor previous h)

  module _ (day : Day) (s t : StrategySignal) (n : IsNextDay day s t) where
    abbrev on_day :
        Evaluated ranking config day.as_of day.ordered day.indicators day.current day.pool
          day.anchor
          (some s)
          t
    on_day = evaluated day (some s) (some s) t n.same n.evaluated

    next_day-IsCoherent : IsCoherent s → IsCoherent t
    next_day-IsCoherent h = published-IsCoherent day.as_of on_day.decision t on_day.publishes (
        decide-FitsStage config day.as_of day.ordered day.indicators day.current day.anchor
          (setup_of day) s on_day.levels on_day.decision on_day.levels_from on_day.judged n.later h)

    decision_follows : IsCoherent s → can_follow s.setup_stage on_day.decision.stage ≡ true
    decision_follows h =
        decide-follows config day.as_of day.ordered day.indicators day.current day.anchor
          (setup_of day) s on_day.levels on_day.decision on_day.levels_from on_day.judged h n.later

    decision_keeps : is_some s.support ≡ true → on_day.decision.frozen ≡ frozen_of (some s)
    decision_keeps f =
        frozen_kept config day.as_of day.ordered day.indicators day.current day.anchor
          (setup_of day) s on_day.levels on_day.decision on_day.levels_from on_day.judged n.later f

  -- Every signal that a setup reaches is coherent.
  pub Reached-IsCoherent : {t : StrategySignal} → Reached t → IsCoherent t
  Reached-IsCoherent {t} (first day previous same h) =
      let on_day = evaluated day previous none t same h in
      published-IsCoherent day.as_of on_day.decision t on_day.publishes (
        first-FitsStage config day.as_of day.ordered day.indicators day.current day.anchor
          (setup_of day) on_day.levels on_day.decision on_day.levels_from on_day.judged)
  Reached-IsCoherent {t} (next day {s} r n) = next_day-IsCoherent day s t n (Reached-IsCoherent r)

  -- From a signal that a setup reaches, a later day moves the stage only as `can_follow` says.
  pub Reached-can_follow :
      (day : Day) (s t : StrategySignal)
      → Reached s
      → IsNextDay day s t
      → can_follow s.setup_stage t.setup_stage ≡ true
  Reached-can_follow day s t r n =
      ap (can_follow s.setup_stage) (on_day day s t n).publishes.stage
      ∙ decision_follows day s t n (Reached-IsCoherent r)

  -- Once a signal that a setup reaches has a support, a later day publishes the same frozen levels.
  pub Reached-frozen_of :
      (day : Day) (s t : StrategySignal)
      → Reached s
      → IsNextDay day s t
      → is_some s.support ≡ true
      → frozen_of (some t) ≡ frozen_of (some s)
  unfolding published
  Reached-frozen_of day s t r n f =
      (on_day day s t n).publishes.levels
      ∙ rw
          (has_frozen-follows s.setup_stage (on_day day s t n).decision.stage
            (has_frozen-support s.setup_stage s (Reached-IsCoherent r) f)
            (decision_follows day s t n (Reached-IsCoherent r)))
          (decision_keeps day s t n f)
