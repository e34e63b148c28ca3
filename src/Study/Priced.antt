-- ===== src/Study/Priced.antt =====
-- The price at which an episode is filled.
use a_share_limit_pullback.Base.{
  ℕ, Bool, true, false, String, Option, none, some, List, [], ◌∷◌, if◌then◌else◌, Outcome, ◌>>=◌,
  Whenever, Whenever->>=, raised, ok, inl, inr, ◌⊎◌, ◌≡◌, refl,
}
use a_share_limit_pullback.Decimal.{Decimal}
use a_share_limit_pullback.Models.Labels.{FillStatus, OutcomeStatus}
use a_share_limit_pullback.Models.Market.{DailyBar}
use a_share_limit_pullback.Study.Complete.{
  Labels, unfilled, not_filled, filled_labels, labels_of, open_trade, plan_of, reward_reason,
  try_plan,
}
use a_share_limit_pullback.Study.Event.{FrozenEvent}
use a_share_limit_pullback.Study.Fill.{Plan, Entry, missed, filled_at, entry_of, resolve}

-- A fill at a price of the range of the first session, of the day and at the price of the entry.
pub record IsFill (plan : Plan) (future : List DailyBar) (l : Labels) : Type 0 where
  pub bar : DailyBar
  pub rest : List DailyBar
  pub price : Decimal
  pub sessions : future ≡ bar ∷ rest
  pub entered : entry_of plan bar ≡ filled_at l.fill_type price
  pub priced : l.fill_price ≡ some price
  pub dated : l.fill_date ≡ some bar.trade_date
  pub explained : (l.eligibility_reason ≡ none) ⊎ (l.eligibility_reason ≡ some "RISK_NON_POSITIVE")

abbrev pub IsPriced : Plan → List DailyBar → Labels → Type 0
IsPriced plan future l = (l.fill_price ≡ none) ⊎ IsFill plan future l

risk_cases :
    (low : Bool)
    → let reason : Option String = if low then some "RISK_NON_POSITIVE" else none in
      (reason ≡ none) ⊎ (reason ≡ some "RISK_NON_POSITIVE")
risk_cases true = inr refl
risk_cases false = inl refl

module _ (plan : Plan) (sessions : ℕ) where
  open_cases :
      (bar : DailyBar) (rest : List DailyBar) (entry : Entry) (gap : Bool)
      → entry_of plan bar ≡ entry
      → Whenever (IsPriced plan (bar ∷ rest)) (
          if gap
          then ok (
              unfilled FillStatus.cancel_gap_invalid OutcomeStatus.cancel_gap_invalid
                "T_PLUS_1_OPEN_AT_OR_BELOW_INVALID")
          else elim entry [
            | missed reason ↦ ok (not_filled reason)
            | filled_at fill_type fill_price ↦ resolve plan sessions fill_type bar rest >>= λ r.
                ok (filled_labels plan sessions fill_type fill_price bar rest r)
          ])
  unfolding filled_labels
  open_cases bar rest entry true e = inl refl
  open_cases bar rest (missed reason) false e = inl refl
  open_cases bar rest (filled_at fill_type fill_price) false e =
      Whenever->>= (IsPriced plan (bar ∷ rest)) (resolve plan sessions fill_type bar rest) _ (λ r.
        inr (record {
          bar = bar;
          rest = rest;
          price = fill_price;
          sessions = refl;
          entered = e;
          priced = refl;
          dated = refl;
          explained = risk_cases _;
        }))

  open_trade-IsPriced :
      (future : List DailyBar) → Whenever (IsPriced plan future) (open_trade plan sessions future)
  unfolding open_trade
  open_trade-IsPriced [] = inl refl
  open_trade-IsPriced (bar ∷ rest) = open_cases bar rest _ _ refl

  try_cases :
      (candidate : Bool) (future : List DailyBar) (risky : Bool)
      → Whenever (IsPriced plan future) (
          if risky
          then ok (not_filled "RISK_NON_POSITIVE")
          else (reward_reason plan candidate >>= λ r. elim r [
            | some text ↦ ok (not_filled text)
            | none ↦ open_trade plan sessions future
          ]))
  try_cases candidate future true = inl refl
  try_cases candidate future false =
      Whenever->>= (IsPriced plan future) (reward_reason plan candidate) _ reason_cases
    where
      reason_cases :
          (r : Option String)
          → Whenever
              (IsPriced plan future)
              (elim r [ some text ↦ ok (not_filled text) | none ↦ open_trade plan sessions future ])
      reason_cases (some text) = inl refl
      reason_cases none = open_trade-IsPriced future

  try_plan-IsPriced :
      (candidate : Bool) (future : List DailyBar)
      → Whenever (IsPriced plan future) (try_plan plan candidate sessions future)
  unfolding try_plan
  try_plan-IsPriced candidate future = try_cases candidate future _

module _ (event : FrozenEvent) (sessions : ℕ) (future : List DailyBar) where
  -- The fill of an event's labels is the one of its plan in the first session.
  abbrev pub HasFill : Labels → Type 0
  HasFill l =
      (l.fill_price ≡ none) ⊎ ((plan : Plan) × (plan_of event ≡ some plan) × IsFill plan future l)

  labels_cases :
      (prep : Bool) (plan : Option Plan)
      → plan_of event ≡ plan
      → Whenever HasFill (
          if prep then ok (not_filled "B1_PREP_CONVERSION_ONLY") else elim plan [
            | none ↦ ok (not_filled "INCOMPLETE_FROZEN_TRADE_PLAN")
            | some p ↦ try_plan p event.is_entry_candidate sessions future
          ])
  labels_cases true plan e = inl refl
  labels_cases false none e = inl refl
  labels_cases false (some plan) e =
      planned _ (try_plan-IsPriced plan sessions event.is_entry_candidate future)
    where
      planned : (o : Outcome Labels) → Whenever (IsPriced plan future) o → Whenever HasFill o
      planned (raised error) h = tt
      planned (ok l) (inl empty) = inl empty
      planned (ok l) (inr fill) = inr (plan, e, fill)

  pub labels_of-HasFill : Whenever HasFill (labels_of event sessions future)
  unfolding labels_of
  labels_of-HasFill = labels_cases _ _ refl
