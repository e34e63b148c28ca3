-- ===== src/Study/Reward.antt =====
-- When the labels of an event raise: at B2_READY, without room from the trigger to S1.
use a_share_limit_pullback.Base.{
  ℕ, ◌≤◌, Bool, true, false, String, Option, none, some, List, if◌then◌else◌, no_reward_room,
  Outcome, ◌>>=◌, Returns, raised, ok, Bool-cases, inl, inr, ◌≡◌, refl, arith,
}
use a_share_limit_pullback.Decimal.{Decimal, ◌≤𝔻◌}
use a_share_limit_pullback.Models.Labels.{label_is_b1_prep}
use a_share_limit_pullback.Models.Market.{DailyBar}
use a_share_limit_pullback.Study.Complete.{
  not_filled, labels_of, open_trade, plan_of, reward_reason, try_plan,
}
use a_share_limit_pullback.Study.Consistent.{open_trade-IsConsistent}
use a_share_limit_pullback.Study.Event.{FrozenEvent}
use a_share_limit_pullback.Study.Fill.{Plan}

-- An actionable event at B2_READY whose complete plan has a risk, and S1 not above the trigger.
pub record LacksReward (event : FrozenEvent) : Type 0 where
  pub plan : Plan
  pub trigger : Decimal
  pub not_prep : label_is_b1_prep event.execution_label ≡ false
  pub planned : plan_of event ≡ some plan
  pub triggered : plan.trigger ≡ some trigger
  pub candidate : event.is_entry_candidate ≡ true
  pub has_risk : (plan.preferred ≤𝔻 plan.invalid) ≡ false
  pub no_room : (plan.s1 ≤𝔻 trigger) ≡ true

-- The call raises only where the condition holds.
unfoldable pub RaisesOnly : {A : Type 0} → Type 0 → Outcome A → Type 0
RaisesOnly P (ok a) = Unit
RaisesOnly P (raised e) = P

Returns→RaisesOnly :
    {A : Type 0} (P : Type 0) (Q : A → Type 0) (o : Outcome A) → Returns Q o → RaisesOnly P o
unfolding RaisesOnly
Returns→RaisesOnly P Q (ok a) h = tt
Returns→RaisesOnly P Q (raised e) h = elim h [ ]

RaisesOnly->>= :
    {A B : Type 0} (P : Type 0) (action : Outcome A) (next : A → Outcome B)
    → RaisesOnly P action
    → ((a : A) → RaisesOnly P (next a))
    → RaisesOnly P (action >>= next)
unfolding RaisesOnly
RaisesOnly->>= P (ok a) next h k = k a
RaisesOnly->>= P (raised e) next h k = h

module _ (plan : Plan) (candidate : Bool) (sessions : ℕ) (future : List DailyBar)
    (pos : 1 ≤ sessions) where
  HasNoRoom : Type 0
  HasNoRoom =
      (trigger : Decimal) × (plan.trigger ≡ some trigger)
      × (candidate ≡ true)
      × ((plan.preferred ≤𝔻 plan.invalid) ≡ false)
      × ((plan.s1 ≤𝔻 trigger) ≡ true)

  open_trade-RaisesOnly : RaisesOnly HasNoRoom (open_trade plan sessions future)
  open_trade-RaisesOnly =
      Returns→RaisesOnly HasNoRoom _ _ (open_trade-IsConsistent plan sessions pos future)

  reward_cases :
      (trigger : Option Decimal) (wants : Bool)
      → plan.trigger ≡ trigger
      → candidate ≡ wants
      → (plan.preferred ≤𝔻 plan.invalid) ≡ false
      → RaisesOnly {A = Option String} HasNoRoom (elim trigger [
        | none ↦ ok none
        | some t ↦
            if plan.s1 ≤𝔻 t
            then if wants then raised no_reward_room else ok (some "REWARD_NON_POSITIVE_AT_TRIGGER")
            else ok (if wants then none else some "NON_ACTIONABLE_STRUCTURAL_EVENT")
      ])
  unfolding RaisesOnly HasNoRoom
  reward_cases none wants e f g = tt
  reward_cases (some t) true e f g = elim (Bool-cases (plan.s1 ≤𝔻 t)) [
    | inl room ↦ rw room (t, e, f, g, room)
    | inr room ↦ rw room tt
  ]
  reward_cases (some t) false e f g = ground arith

  try_cases :
      (risky : Bool)
      → (plan.preferred ≤𝔻 plan.invalid) ≡ risky
      → RaisesOnly HasNoRoom (
          if risky
          then ok (not_filled "RISK_NON_POSITIVE")
          else (reward_reason plan candidate >>= λ r. elim r [
            | some text ↦ ok (not_filled text)
            | none ↦ open_trade plan sessions future
          ]))
  unfolding RaisesOnly reward_reason
  try_cases true e = tt
  try_cases false e =
      RaisesOnly->>= HasNoRoom (reward_reason plan candidate) _
        (reward_cases plan.trigger candidate refl refl e) (λ r. reason_cases r)
    where
      reason_cases :
          (r : Option String)
          → RaisesOnly HasNoRoom
              (elim r [ some text ↦ ok (not_filled text) | none ↦ open_trade plan sessions future ])
      reason_cases (some text) = tt
      reason_cases none = open_trade-RaisesOnly

  try_plan-RaisesOnly : RaisesOnly HasNoRoom (try_plan plan candidate sessions future)
  unfolding try_plan
  try_plan-RaisesOnly = try_cases _ refl

module _ (event : FrozenEvent) (sessions : ℕ) (future : List DailyBar) where
  labels_cases :
      (prep : Bool) (plan : Option Plan)
      → 1 ≤ sessions
      → label_is_b1_prep event.execution_label ≡ prep
      → plan_of event ≡ plan
      → RaisesOnly (LacksReward event) (
          if prep then ok (not_filled "B1_PREP_CONVERSION_ONLY") else elim plan [
            | none ↦ ok (not_filled "INCOMPLETE_FROZEN_TRADE_PLAN")
            | some p ↦ try_plan p event.is_entry_candidate sessions future
          ])
  unfolding RaisesOnly HasNoRoom
  labels_cases true plan pos e f = tt
  labels_cases false none pos e f = tt
  labels_cases false (some plan) pos e f =
      weaken _ (try_plan-RaisesOnly plan event.is_entry_candidate sessions future pos)
    where
      lacks : HasNoRoom plan event.is_entry_candidate sessions future pos → LacksReward event
      lacks (t, g, c, risk, room) = record {
        plan = plan;
        trigger = t;
        not_prep = e;
        planned = f;
        triggered = g;
        candidate = c;
        has_risk = risk;
        no_room = room;
      }

      weaken :
          {A : Type 0} (o : Outcome A)
          → RaisesOnly (HasNoRoom plan event.is_entry_candidate sessions future pos) o
          → RaisesOnly (LacksReward event) o
      weaken (ok a) h = tt
      weaken (raised error) h = lacks h

  pub labels_of-RaisesOnly :
      1 ≤ sessions → RaisesOnly (LacksReward event) (labels_of event sessions future)
  unfolding labels_of
  labels_of-RaisesOnly pos = labels_cases _ _ pos refl refl

  pub LacksReward-raises :
      LacksReward event → labels_of event sessions future ≡ raised no_reward_room
  unfolding labels_of try_plan reward_reason
  LacksReward-raises l =
      rw
        (
          labels_of, l.not_prep, l.planned, try_plan, l.has_risk, reward_reason, l.triggered,
          l.no_room, l.candidate,
        )
        refl
