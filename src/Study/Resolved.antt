-- ===== src/Study/Resolved.antt =====
-- How a filled trade is resolved: the fields of a resolution fit together, and a trade has one.
use a_share_limit_pullback.Base.{
  ℕ, zero, suc, ◌+◌, ◌-◌, ◌≤◌, ◌==◌, Bool, true, false, not, ◌&&◌, Option, none, some, List, [],
  ◌∷◌, ltb, leb, length, take, is_some, if◌then◌else◌, ◌>>=◌, Returns, Returns->>=, ok, ◌≡◌, refl,
  sym, ◌∙◌, arith,
}
use mathlib.Core.Option
use a_share_limit_pullback.Decimal.{Decimal}
use a_share_limit_pullback.Models.Labels.{FillStatus, FillType, OutcomeStatus, is_censored}
use a_share_limit_pullback.Models.Market.{DailyBar}
use a_share_limit_pullback.Study.Barriers.{
  Resolution, unresolved, timeout_on, trigger_outcome, trigger_touch, timed_out,
}
use a_share_limit_pullback.Study.Fill.{Plan, resolve, resolve_later, one_session_more}
use a_share_limit_pullback.Study.FirstTouch.{last?-some}

-- a status of the fill and an outcome that go together
unfoldable pub goes_with : FillStatus → OutcomeStatus → Bool
goes_with FillStatus.no_fill OutcomeStatus.no_fill = true
goes_with FillStatus.cancel_gap_invalid OutcomeStatus.cancel_gap_invalid = true
goes_with FillStatus.censored OutcomeStatus.censored = true
goes_with FillStatus.filled OutcomeStatus.win_s1 = true
goes_with FillStatus.filled OutcomeStatus.loss_invalid = true
goes_with FillStatus.filled OutcomeStatus.ambiguous_intraday = true
goes_with FillStatus.filled OutcomeStatus.timeout = true
goes_with FillStatus.filled OutcomeStatus.censored = true
goes_with _ _ = false

-- a number of sessions held that lies within the bounds
unfoldable pub within : ℕ → ℕ → Option ℕ → Bool
within low high none = true
within low high (some n) = leb low n && leb n high

-- the price at which a trade with the outcome is left
unfoldable pub exit_for : Option Decimal → Option Decimal → OutcomeStatus → Option Decimal
exit_for s1 invalid OutcomeStatus.win_s1 = s1
exit_for s1 invalid OutcomeStatus.loss_invalid = invalid
exit_for s1 invalid _ = none

pub record IsResolved (s1 invalid : Decimal) (low high : ℕ) (r : Resolution) : Type 0 where
  pub fits : goes_with FillStatus.filled r.outcome ≡ true
  pub held : is_some r.holding ≡ not (is_censored r.outcome)
  pub dated : is_some r.resolution_date ≡ is_some r.holding
  pub priced : r.exit_price ≡ exit_for (some s1) (some invalid) r.outcome
  pub bounds : within low high r.holding ≡ true

length-take-le : {A : Type 0} (n : ℕ) (xs : List A) → length (take n xs) ≤ n
length-take-le zero xs = ground arith
length-take-le (suc n) [] = ground arith
length-take-le (suc n) (x ∷ xs) = omega (arith, length-take-le n xs)

within-suc :
    (low high : ℕ) (o : Option ℕ)
    → within low high o ≡ true
    → (is_some (Option.map suc o) ≡ is_some o)
      × (within (suc low) (suc high) (Option.map suc o) ≡ true)
unfolding within
within-suc low high none h = (refl, refl)
within-suc low high (some n) h = (refl, ground arith)

module _ (s1 invalid : Decimal) where
  MayResolve : ℕ → ℕ → Option Resolution → Type 0
  MayResolve low high none = Unit
  MayResolve low high (some r) = IsResolved s1 invalid low high r

  module _ {low high low' high' : ℕ} (below : low' ≤ low) (above : high ≤ high') where
    within_widen : (o : Option ℕ) → within low high o ≡ true → within low' high' o ≡ true
    unfolding within
    within_widen none h = refl
    within_widen (some n) h = ground (arith, below, above)

    IsResolved-widen :
        {r : Resolution} → IsResolved s1 invalid low high r → IsResolved s1 invalid low' high' r
    IsResolved-widen {r = r} h = record {
      fits = h.fits;
      held = h.held;
      dated = h.dated;
      priced = h.priced;
      bounds = within_widen r.holding h.bounds;
    }

  MayResolve-earlier :
      (low high : ℕ) (o : Option Resolution) → MayResolve (suc low) high o → MayResolve low high o
  unfolding MayResolve
  MayResolve-earlier low high none h = tt
  MayResolve-earlier low high (some r) h = IsResolved-widen (omega arith) (omega arith) h

  trigger_touch-MayResolve :
      (index high : ℕ) (window : List DailyBar)
      → index + length window ≤ suc high
      → MayResolve index high (trigger_touch index s1 invalid window)
  unfolding trigger_touch MayResolve within goes_with exit_for
  trigger_touch-MayResolve index high [] h = tt
  trigger_touch-MayResolve index high (bar ∷ bars) h = ground (
    arith,
    MayResolve-earlier index high _
        (trigger_touch-MayResolve (suc index) high bars (omega (arith, h))),
  )

  timed_out-IsResolved :
      (window : List DailyBar) (high : ℕ)
      → 1 ≤ length window
      → length window ≤ high
      → Returns (IsResolved s1 invalid 1 high) (timed_out window)
  unfolding within goes_with exit_for
  timed_out-IsResolved window high some_bar small =
      let (bar, last) = last?-some window some_bar in
      rw last (record {
        fits = refl;
        held = refl;
        dated = refl;
        priced = refl;
        bounds = ground (arith, small);
      })

  trigger_outcome_ends :
      (o : Option Resolution) (short : Bool) (window : List DailyBar) (sessions : ℕ)
      → 1 ≤ sessions
      → length window ≤ sessions
      → ltb (length window) sessions ≡ short
      → MayResolve 1 (length window) o
      → Returns (IsResolved s1 invalid 1 sessions) (elim o [
        | some resolution ↦ ok resolution
        | none ↦ if short then ok unresolved else timed_out window
      ])
  unfolding within MayResolve goes_with exit_for
  trigger_outcome_ends (some x) short window sessions pos small e m =
      IsResolved-widen (omega arith) small m
  trigger_outcome_ends none true window sessions pos small e m = record {
    fits = refl;
    held = refl;
    dated = refl;
    priced = refl;
    bounds = refl;
  }
  trigger_outcome_ends none false window sessions pos small e m =
      timed_out-IsResolved window sessions (ground (arith, e)) small

  trigger_outcome-IsResolved :
      (future : List DailyBar) (sessions : ℕ)
      → 1 ≤ sessions
      → Returns (IsResolved s1 invalid 1 sessions) (trigger_outcome future sessions s1 invalid)
  unfolding trigger_outcome
  trigger_outcome-IsResolved future sessions pos =
      trigger_outcome_ends _ _ (take sessions future) sessions pos (length-take-le sessions future)
        refl (trigger_touch-MayResolve 1 (length (take sessions future)) _ (omega arith))

  one_session_more-IsResolved :
      (low high : ℕ) (r : Resolution)
      → IsResolved s1 invalid low high r
      → IsResolved s1 invalid (suc low) (suc high) (one_session_more r)
  one_session_more-IsResolved low high r h =
      let (same, inside) = within-suc low high r.holding h.bounds in
      record {
        fits = h.fits;
        held = same ∙ h.held;
        dated = h.dated ∙ sym same;
        priced = h.priced;
        bounds = inside;
      }

module _ (plan : Plan) (sessions : ℕ) (bar : DailyBar) (rest : List DailyBar)
    (pos : 1 ≤ sessions) where
  resolve_later-cases :
      (one : Bool)
      → (sessions - 1 == 0) ≡ one
      → Returns (IsResolved plan.s1 plan.invalid 1 sessions) (
          if one
          then ok (timeout_on bar 1)
          else (trigger_outcome rest (sessions - 1) plan.s1 plan.invalid >>= λ r.
              ok (one_session_more r)))
  unfolding within goes_with exit_for
  resolve_later-cases true e = record {
    fits = refl;
    held = refl;
    dated = refl;
    priced = refl;
    bounds = ground (arith, pos);
  }
  resolve_later-cases false e =
      Returns->>= (IsResolved plan.s1 plan.invalid 1 sessions)
        (trigger_outcome rest (sessions - 1) plan.s1 plan.invalid) _
        (trigger_outcome-IsResolved plan.s1 plan.invalid rest (sessions - 1) (ground (arith, e)))
        (λ r h.
          IsResolved-widen plan.s1 plan.invalid (omega arith) (omega arith)
            (one_session_more-IsResolved plan.s1 plan.invalid 1 (sessions - 1) r h))

  resolve_later-IsResolved :
      Returns (IsResolved plan.s1 plan.invalid 1 sessions) (resolve_later plan sessions bar rest)
  unfolding resolve_later
  resolve_later-IsResolved = resolve_later-cases _ refl

  -- With at least one session to hold, a filled trade is resolved.
  pub resolve-IsResolved :
      (fill_type : FillType)
      → Returns
          (IsResolved plan.s1 plan.invalid 1 sessions)
          (resolve plan sessions fill_type bar rest)
  unfolding resolve within goes_with exit_for
  resolve-IsResolved FillType.breakout_trigger_fill = ground (arith, pos, resolve_later-IsResolved)
  resolve-IsResolved FillType.intraday_touch_fill = ground (arith, pos, resolve_later-IsResolved)
  resolve-IsResolved FillType.none =
      trigger_outcome-IsResolved plan.s1 plan.invalid (bar ∷ rest) sessions pos
  resolve-IsResolved FillType.open_fill =
      trigger_outcome-IsResolved plan.s1 plan.invalid (bar ∷ rest) sessions pos
  resolve-IsResolved FillType.breakout_gap_fill =
      trigger_outcome-IsResolved plan.s1 plan.invalid (bar ∷ rest) sessions pos
