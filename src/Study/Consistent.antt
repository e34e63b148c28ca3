-- ===== src/Study/Consistent.antt =====
-- The fields of a labelled episode fit together, and when `_complete_event` raises.
use a_share_limit_pullback.Base.{
  ℕ, ◌≤◌, String, Bool, true, false, not, ◌&&◌, Option, none, some, List, [], ◌∷◌, is_some,
  if◌then◌else◌, Error, no_reward_room, Outcome, ◌>>=◌, Returns, Returns->>=, raised, ok, ◌≡◌, refl,
  sym, arith,
}
use a_share_limit_pullback.Decimal.{Decimal}
use a_share_limit_pullback.Models.Labels.{
  FillStatus, FillType, OutcomeStatus, is_censored, is_filled, label_is_b2_ready,
}
use a_share_limit_pullback.Models.Market.{DailyBar}
use a_share_limit_pullback.Study.Barriers.{Resolution}
use a_share_limit_pullback.Study.Complete.{
  Labels, unfilled, not_filled, filled_labels, labels_of, open_trade, plan_of, reward_reason,
  try_plan,
}
use a_share_limit_pullback.Study.Event.{FrozenEvent}
use a_share_limit_pullback.Study.Fill.{Plan, Entry, missed, filled_at, resolve}
use a_share_limit_pullback.Study.Resolved.{
  IsResolved, goes_with, within, exit_for, resolve-IsResolved,
}

-- What the fields of an episode say of each other, when at most `sessions` are held.
pub record IsConsistent (s1 invalid : Option Decimal) (sessions : ℕ) (l : Labels) : Type 0 where
  pub fits : goes_with l.fill_status l.outcome ≡ true
  pub filled_price : is_some l.fill_price ≡ is_filled l.fill_status
  pub filled_date : is_some l.fill_date ≡ is_filled l.fill_status
  pub held : is_some l.holding ≡ (is_filled l.fill_status && not (is_censored l.outcome))
  pub dated : is_some l.resolution_date ≡ is_some l.holding
  pub priced : l.exit_price ≡ exit_for s1 invalid l.outcome
  pub bounds : within 1 sessions l.holding ≡ true

-- The call returns a value with the property, or it raises the error.
unfoldable pub ReturnsUnless : {A : Type 0} → Error → (A → Type 0) → Outcome A → Type 0
ReturnsUnless error P (ok a) = P a
ReturnsUnless error P (raised e) = e ≡ error

Returns→Unless :
    {A : Type 0} (error : Error) (P : A → Type 0) (o : Outcome A)
    → Returns P o
    → ReturnsUnless error P o
unfolding ReturnsUnless
Returns→Unless error P (ok a) h = h
Returns→Unless error P (raised e) h = elim h [ ]

-- An episode that is not filled has no other field.
unfilled-IsConsistent :
    (s1 invalid : Option Decimal) (sessions : ℕ) (status : FillStatus) (outcome : OutcomeStatus)
    (reason : String)
    → goes_with status outcome ≡ true
    → is_filled status ≡ false
    → IsConsistent s1 invalid sessions (unfilled status outcome reason)
unfolding goes_with within exit_for
unfilled-IsConsistent s1 invalid sessions status outcome reason fits empty = record {
  fits = fits;
  filled_price = sym empty;
  filled_date = sym empty;
  held = rw empty refl;
  dated = refl;
  priced = ground (arith, fits, empty);
  bounds = refl;
}

module _ (plan : Plan) (sessions : ℕ) (pos : 1 ≤ sessions) where
  abbrev pub Fits : Labels → Type 0
  Fits = IsConsistent (some plan.s1) (some plan.invalid) sessions

  filled_labels-IsConsistent :
      (fill_type : FillType) (fill_price : Decimal) (bar : DailyBar) (rest : List DailyBar)
      (r : Resolution)
      → IsResolved plan.s1 plan.invalid 1 sessions r
      → Fits (filled_labels plan sessions fill_type fill_price bar rest r)
  unfolding filled_labels
  filled_labels-IsConsistent fill_type fill_price bar rest r h = record {
    fits = h.fits;
    filled_price = refl;
    filled_date = refl;
    held = h.held;
    dated = h.dated;
    priced = h.priced;
    bounds = h.bounds;
  }

  open_trade-cases :
      (bar : DailyBar) (rest : List DailyBar) (entry : Entry) (gap : Bool)
      → Returns Fits (
          if gap
          then ok (
              unfilled FillStatus.cancel_gap_invalid OutcomeStatus.cancel_gap_invalid
                "T_PLUS_1_OPEN_AT_OR_BELOW_INVALID")
          else elim entry [
            | missed reason ↦ ok (not_filled reason)
            | filled_at fill_type fill_price ↦ resolve plan sessions fill_type bar rest >>= λ r.
                ok (filled_labels plan sessions fill_type fill_price bar rest r)
          ])
  unfolding goes_with within exit_for
  open_trade-cases bar rest entry true = unfilled-IsConsistent _ _ sessions _ _ _ refl refl
  open_trade-cases bar rest (missed reason) false =
      unfilled-IsConsistent _ _ sessions _ _ _ refl refl
  open_trade-cases bar rest (filled_at fill_type fill_price) false =
      Returns->>= Fits (resolve plan sessions fill_type bar rest) _
        (resolve-IsResolved plan sessions bar rest pos fill_type)
        (filled_labels-IsConsistent fill_type fill_price bar rest)

  pub open_trade-IsConsistent :
      (future : List DailyBar) → Returns Fits (open_trade plan sessions future)
  unfolding open_trade goes_with within exit_for
  open_trade-IsConsistent [] = unfilled-IsConsistent _ _ sessions _ _ _ refl refl
  open_trade-IsConsistent (bar ∷ rest) = open_trade-cases bar rest _ _

  -- the reason, or the error, of a plan without reward
  reward_checked :
      (candidate : Bool) (future : List DailyBar) (reason : Outcome (Option String))
      → ReturnsUnless no_reward_room (λ r. Unit {0}) reason
      → ReturnsUnless no_reward_room Fits (
          reason >>= λ r. elim r [
            | some text ↦ ok (not_filled text)
            | none ↦ open_trade plan sessions future
          ])
  unfolding ReturnsUnless goes_with within exit_for
  reward_checked candidate future (raised e) h = h
  reward_checked candidate future (ok (some text)) h =
      unfilled-IsConsistent _ _ sessions _ _ text refl refl
  reward_checked candidate future (ok none) h =
      Returns→Unless no_reward_room Fits _ (open_trade-IsConsistent future)

  try_plan-cases :
      (candidate : Bool) (future : List DailyBar) (risky : Bool) (reason : Outcome (Option String))
      → ReturnsUnless no_reward_room (λ r. Unit {0}) reason
      → ReturnsUnless no_reward_room Fits (
          if risky
          then ok (not_filled "RISK_NON_POSITIVE")
          else (reason >>= λ r. elim r [
            | some text ↦ ok (not_filled text)
            | none ↦ open_trade plan sessions future
          ]))
  unfolding ReturnsUnless goes_with within exit_for
  try_plan-cases candidate future true reason h = unfilled-IsConsistent _ _ sessions _ _ _ refl refl
  try_plan-cases candidate future false reason h = reward_checked candidate future reason h

  reward_reason-Unless :
      (candidate : Bool)
      → ReturnsUnless no_reward_room (λ r. Unit {0}) (reward_reason plan candidate)
  unfolding reward_reason ReturnsUnless
  reward_reason-Unless candidate = ground arith

  try_plan-IsConsistent :
      (candidate : Bool) (future : List DailyBar)
      → ReturnsUnless no_reward_room Fits (try_plan plan candidate sessions future)
  unfolding try_plan
  try_plan-IsConsistent candidate future =
      try_plan-cases candidate future _ _ (reward_reason-Unless candidate)

-- A plan has the prices of its event.
pub record IsPlanOf (event : FrozenEvent) (plan : Plan) : Type 0 where
  pub preferred : event.preferred_entry ≡ some plan.preferred
  pub invalid : event.invalid_price ≡ some plan.invalid
  pub s1 : event.s1_price ≡ some plan.s1
  pub trigger :
      plan.trigger
      ≡ (if label_is_b2_ready event.execution_label then event.b2_trigger_price else none)

pub plan_of-IsPlanOf :
    (event : FrozenEvent) (plan : Plan) → plan_of event ≡ some plan → IsPlanOf event plan
unfolding plan_of
plan_of-IsPlanOf event plan h = ground arith

module _ (event : FrozenEvent) (sessions : ℕ) (future : List DailyBar) (pos : 1 ≤ sessions) where
  abbrev IsLabelled : Labels → Type 0
  IsLabelled = IsConsistent event.s1_price event.invalid_price sessions

  labels_of-cases :
      (prep : Bool) (plan : Option Plan)
      → plan_of event ≡ plan
      → ReturnsUnless no_reward_room IsLabelled (
          if prep then ok (not_filled "B1_PREP_CONVERSION_ONLY") else elim plan [
            | none ↦ ok (not_filled "INCOMPLETE_FROZEN_TRADE_PLAN")
            | some p ↦ try_plan p event.is_entry_candidate sessions future
          ])
  unfolding ReturnsUnless goes_with within exit_for
  labels_of-cases true plan e = unfilled-IsConsistent _ _ sessions _ _ _ refl refl
  labels_of-cases false none e = unfilled-IsConsistent _ _ sessions _ _ _ refl refl
  labels_of-cases false (some plan) e =
      let prices = plan_of-IsPlanOf event plan e in
      rw (prices.s1, prices.invalid)
        (try_plan-IsConsistent plan sessions pos event.is_entry_candidate future)

  -- With at least one session to hold, the labels of an event either raise that it has no reward
  -- room, or fit together: the fill's status and the outcome, the fields of a fill, the sessions
  -- held, which are at most the configured number, and the price and the day of the exit.
  pub labels_of-IsConsistent :
      ReturnsUnless no_reward_room
        (IsConsistent event.s1_price event.invalid_price sessions)
        (labels_of event sessions future)
  unfolding labels_of
  labels_of-IsConsistent = labels_of-cases _ _ refl
