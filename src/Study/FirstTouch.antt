-- ===== src/Study/FirstTouch.antt =====
-- The first bar that touches one of two prices decides, for a pattern and for a trade.
use a_share_limit_pullback.Base.{
  ℕ, zero, suc, ◌≤◌, ◌<◌, Bool, true, false, ◌&&◌, Option, none, some, List, [], ◌∷◌, ◌++◌, All,
  ltb, length, take, last?, get_elem?, ◌-◌, Outcome, ok, ◌≡◌, ◌↔◌, subst, refl, if◌then◌else◌, ap,
  arith,
}
use a_share_limit_pullback.Decimal.{Decimal}
use a_share_limit_pullback.Models.Labels.{OutcomeStatus, PatternOutcome}
use a_share_limit_pullback.Models.Market.{DailyBar}
use a_share_limit_pullback.Study.Barriers.{
  Resolution, unresolved, timeout_on, timed_out, hits_invalid, hits_s1, pattern_result,
  pattern_touch, trigger_outcome, trigger_touch,
}

length-take :
    {A : Type 0} (n : ℕ) (xs : List A)
    → length (take n xs) ≡ (if ltb (length xs) n then length xs else n)
length-take zero xs = ground arith
length-take (suc n) [] = ground arith
length-take (suc n) (x ∷ xs) = ground (arith, length-take n xs)

short_window :
    {A : Type 0} {n : ℕ} (xs : List A) → length xs < n → ltb (length (take n xs)) n ≡ true
short_window {n = n} xs h = grind (arith, length-take n xs)

full_window :
    {A : Type 0} {n : ℕ} (xs : List A) → n ≤ length xs → ltb (length (take n xs)) n ≡ false
full_window {n = n} xs h = grind (arith, length-take n xs)

module _ (s1 invalid : Decimal) where
  abbrev IsUntouched : DailyBar → Type 0
  IsUntouched bar = (hits_s1 s1 bar ≡ false) × (hits_invalid invalid bar ≡ false)

  -- the result that a bar which touches one of the prices gives
  pub data Decides (bar : DailyBar) : PatternOutcome → Type 0 where
    both :
        hits_s1 s1 bar ≡ true
        → hits_invalid invalid bar ≡ true
        → Decides bar PatternOutcome.ambiguous
    target :
        hits_s1 s1 bar ≡ true
        → hits_invalid invalid bar ≡ false
        → Decides bar PatternOutcome.s1_before_invalid
    stop :
        hits_s1 s1 bar ≡ false
        → hits_invalid invalid bar ≡ true
        → Decides bar PatternOutcome.invalid_before_s1

  -- The results that the bars of a window of `horizon` sessions justify.
  pub data Justifies (future : List DailyBar) (horizon : ℕ) : PatternOutcome → Type 0 where
    touched :
        (before : List DailyBar) (bar : DailyBar) (after : List DailyBar) {result : PatternOutcome}
        → take horizon future ≡ before ++ bar ∷ after
        → All IsUntouched before
        → Decides bar result
        → Justifies future horizon result
    too_short :
        All IsUntouched (take horizon future)
        → length future < horizon
        → Justifies future horizon PatternOutcome.censored
    untouched :
        All IsUntouched (take horizon future)
        → horizon ≤ length future
        → Justifies future horizon PatternOutcome.neither

  -- what the loop finds
  abbrev Found : List DailyBar → Option PatternOutcome → Type 0
  Found window none = All IsUntouched window
  Found window (some result) =
      (before : List DailyBar) × (bar : DailyBar) × (after : List DailyBar) × (window
        ≡ before ++ bar ∷ after)
      × All IsUntouched before
      × Decides bar result

  Found-step :
      (bar : DailyBar) (bars : List DailyBar) (rest : Option PatternOutcome) (a b : Bool)
      → hits_s1 s1 bar ≡ a
      → hits_invalid invalid bar ≡ b
      → Found bars rest
      → Found (bar ∷ bars) (
          if a && b
          then some PatternOutcome.ambiguous
          else if a
          then some PatternOutcome.s1_before_invalid
          else if b
          then some PatternOutcome.invalid_before_s1
          else rest)
  Found-step bar bars rest true true e f h = ([], bar, bars, refl, tt, both e f)
  Found-step bar bars rest true false e f h = ([], bar, bars, refl, tt, target e f)
  Found-step bar bars rest false true e f h = ([], bar, bars, refl, tt, stop e f)
  Found-step bar bars none false false e f h = ((e, f), h)
  Found-step bar bars (some result) false false e f (before, b, after, same, clear, d) =
      (bar ∷ before, b, after, ap (λ w. bar ∷ w) same, ((e, f), clear), d)

  pattern_touch-Found : (window : List DailyBar) → Found window (pattern_touch s1 invalid window)
  unfolding pattern_touch
  pattern_touch-Found [] = tt
  pattern_touch-Found (bar ∷ bars) = Found-step bar bars _ _ _ refl refl (pattern_touch-Found bars)

  pattern_touch-untouched :
      (window : List DailyBar) → All IsUntouched window → pattern_touch s1 invalid window ≡ none
  unfolding pattern_touch
  pattern_touch-untouched [] h = refl
  pattern_touch-untouched (bar ∷ bars) ((e, f), h) = rw (e, f) (pattern_touch-untouched bars h)

  pattern_touch-decided :
      (before : List DailyBar) (bar : DailyBar) (after : List DailyBar) {result : PatternOutcome}
      → All IsUntouched before
      → Decides bar result
      → pattern_touch s1 invalid (before ++ bar ∷ after) ≡ some result
  unfolding pattern_touch
  pattern_touch-decided [] bar after h (both e f) = rw (e, f) refl
  pattern_touch-decided [] bar after h (target e f) = rw (e, f) refl
  pattern_touch-decided [] bar after h (stop e f) = rw (e, f) refl
  pattern_touch-decided (b ∷ before) bar after ((e, f), h) d =
      rw (e, f) (pattern_touch-decided before bar after h d)

  module _ (future : List DailyBar) (horizon : ℕ) where
    Justifies-end :
        (o : Option PatternOutcome) (short : Bool)
        → ltb (length (take horizon future)) horizon ≡ short
        → Found (take horizon future) o
        → Justifies future horizon (elim o [
          | some result ↦ result
          | none ↦ if short then PatternOutcome.censored else PatternOutcome.neither
        ])
    Justifies-end (some result) short e (before, bar, after, same, clear, d) =
        touched before bar after same clear d
    Justifies-end none true e h = too_short h (grind (arith, length-take horizon future))
    Justifies-end none false e h = untouched h (grind (arith, length-take horizon future))

    pattern_result-Justifies : Justifies future horizon (pattern_result future horizon s1 invalid)
    unfolding pattern_result
    pattern_result-Justifies = Justifies-end _ _ refl (pattern_touch-Found (take horizon future))

    Justifies-determines :
        {result : PatternOutcome}
        → Justifies future horizon result
        → pattern_result future horizon s1 invalid ≡ result
    unfolding pattern_result
    Justifies-determines (touched before bar after same clear d) =
        rw (pattern_result, same, pattern_touch-decided before bar after clear d) refl
    Justifies-determines (too_short h k) =
        rw (pattern_result, pattern_touch-untouched _ h, short_window future k) refl
    Justifies-determines (untouched h k) =
        rw (pattern_result, pattern_touch-untouched _ h, full_window future k) refl

    -- The result of a pattern is `r` exactly when the bars of the window justify `r`: the first bar
    -- that touches one of the prices decides it, and where none does, the window's length.
    pub pattern_result-eq :
        (r : PatternOutcome)
        → (pattern_result future horizon s1 invalid ≡ r) ↔ Justifies future horizon r
    pattern_result-eq r =
        (λ e. subst (Justifies future horizon) e pattern_result-Justifies, Justifies-determines)

-- what an outcome of a trade says of the pattern
pub as_pattern : OutcomeStatus → Option PatternOutcome
as_pattern OutcomeStatus.win_s1 = some PatternOutcome.s1_before_invalid
as_pattern OutcomeStatus.loss_invalid = some PatternOutcome.invalid_before_s1
as_pattern OutcomeStatus.ambiguous_intraday = some PatternOutcome.ambiguous
as_pattern OutcomeStatus.timeout = some PatternOutcome.neither
as_pattern OutcomeStatus.censored = some PatternOutcome.censored
as_pattern OutcomeStatus.no_fill = none
as_pattern OutcomeStatus.cancel_gap_invalid = none

module _ (s1 invalid : Decimal) where
  Agrees : Option Resolution → Option PatternOutcome → Type 0
  Agrees none p = p ≡ none
  Agrees (some r) none = ⊥
  Agrees (some r) (some q) = as_pattern r.outcome ≡ some q

  touches-Agrees :
      (index : ℕ) (window : List DailyBar)
      → Agrees (trigger_touch index s1 invalid window) (pattern_touch s1 invalid window)
  unfolding trigger_touch pattern_touch as_pattern Agrees
  touches-Agrees index [] = refl
  touches-Agrees index (bar ∷ bars) = ground (arith, touches-Agrees (suc index) bars)

get_elem?-inside :
    {A : Type 0} (xs : List A) (i : ℕ) → i < length xs → (x : A) × (get_elem? xs i ≡ some x)
get_elem?-inside [] i h = ground arith
get_elem?-inside (x ∷ xs) zero h = (x, refl)
get_elem?-inside (x ∷ xs) (suc i) h = get_elem?-inside xs i (omega arith)

pub last?-some : {A : Type 0} (xs : List A) → 1 ≤ length xs → (x : A) × (last? xs ≡ some x)
last?-some xs h =
    let (x, e) = get_elem?-inside xs (length xs - 1) (omega arith) in (x, ground (arith, e))

module _ (future : List DailyBar) (sessions : ℕ) (s1 invalid : Decimal) where
  Ends : Outcome Resolution → PatternOutcome → Type 0
  Ends result pattern = (r : Resolution) × (result ≡ ok r) × (as_pattern r.outcome ≡ some pattern)

  trigger_outcome-Ends :
      (o : Option Resolution) (p : Option PatternOutcome) (short : Bool)
      → 1 ≤ sessions
      → ltb (length (take sessions future)) sessions ≡ short
      → Agrees s1 invalid o p
      → Ends
          (elim o [
            | some resolution ↦ ok resolution
            | none ↦ if short then ok unresolved else timed_out (take sessions future)
          ])
          (elim p [
            | some result ↦ result
            | none ↦ if short then PatternOutcome.censored else PatternOutcome.neither
          ])
  unfolding Ends Agrees as_pattern
  trigger_outcome-Ends (some r) none short pos e h = elim h [ ]
  trigger_outcome-Ends (some r) (some q) short pos e h = (r, refl, h)
  trigger_outcome-Ends none p true pos e h = (unresolved, refl, rw h refl)
  trigger_outcome-Ends none p false pos e h =
      let (bar, last) = last?-some (take sessions future) (grind (arith, e)) in
      (timeout_on bar (length (take sessions future)), rw last refl, rw h refl)

  -- With at least one session to hold, `_trigger_outcome` returns, and its outcome is the one that
  -- `_pattern_result` gives for a horizon of as many sessions.
  pub trigger_outcome-pattern_result :
      1 ≤ sessions
      → (r : Resolution) × (trigger_outcome future sessions s1 invalid ≡ ok r)
        × (as_pattern r.outcome ≡ some (pattern_result future sessions s1 invalid))
  unfolding trigger_outcome pattern_result Ends
  trigger_outcome-pattern_result pos =
      trigger_outcome-Ends _ _ _ pos refl (touches-Agrees s1 invalid 1 (take sessions future))
