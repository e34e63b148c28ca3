-- ===== src/State/Publish/Room.antt =====
-- The validator of a signal accepts the entry room that the engine gives it.
use a_share_limit_pullback.Base.{
  Bool, true, false, not, ◌&&◌, ◌||◌, if◌then◌else◌, is_none, is_some, is_empty, String, Option,
  none, some, List, Outcome, ok, >>=-eq-ok, ◌>>=◌, ok-injective, ◌≡◌, refl, subst, arith,
}
use a_share_limit_pullback.Decimal.{Decimal, nought, ◌≤𝔻◌, ◌<𝔻◌, ◌=𝔻◌, ◌-𝔻◌, ◌/𝔻◌}
use a_share_limit_pullback.Decimal.Order.{=𝔻-refl}
use a_share_limit_pullback.Dates.{Date}
use a_share_limit_pullback.Models.Config.{StrategyConfig}
use a_share_limit_pullback.Models.Enums.{
  EventFlag, ScoreProfile, SetupStage, is_actionable, room_is_none, room_is_open,
}
use a_share_limit_pullback.Models.Market.{DailyBar}
use a_share_limit_pullback.Models.Score.{ScoreBreakdown}
use a_share_limit_pullback.Models.Signal.{check_entry_room, has, holds}
use a_share_limit_pullback.Models.Snapshots.{S1Snapshot, B2TriggerSnapshot}
use a_share_limit_pullback.State.Entry.{
  EntryRoom, no_entry_room, entry_room, headroom_state, room_above,
}
use a_share_limit_pullback.State.Publish.{Decision, published, signal_of}

abbrev headroom_accepted : EntryRoom → S1Snapshot → Decimal → Bool
headroom_accepted room target reference =
    let expected = (target.s1_low -𝔻 reference) /𝔻 reference in
    has (λ h. h =𝔻 expected) room.headroom
    && (not (expected ≤𝔻 nought) || has room_is_none room.state)
    && (not (nought <𝔻 expected)
        || has (λ r. not (room_is_none r) && not (room_is_open r)) room.state)

abbrev accepts : Bool → Option S1Snapshot → EntryRoom → Bool
accepts actionable target room =
    if actionable
    then is_some room.reference
      && is_some room.state
      && not (is_empty room.reasons)
      && (if is_none target
          then has room_is_open room.state && is_none room.headroom
          else holds (λ t. has (headroom_accepted room t) room.reference) target)
    else is_none room.reference
      && is_none room.headroom
      && is_none room.state
      && is_empty room.reasons

module _ (config : StrategyConfig) where
  state_accepted :
      (h : Decimal)
      → ((h =𝔻 h)
          && (not (h ≤𝔻 nought) || room_is_none (headroom_state h config).0)
          && (not (nought <𝔻 h)
              || not (room_is_none (headroom_state h config).0)
                && not (room_is_open (headroom_state h config).0)))
        ≡ true
  unfolding headroom_state
  state_accepted h = ground (arith, =𝔻-refl h)

  accepts-room_above :
      (target : Option S1Snapshot) (reference : Decimal) (reason : String)
      → accepts true target (room_above reference reason target config) ≡ true
  unfolding room_above
  accepts-room_above none reference reason = refl
  accepts-room_above (some t) reference reason =
      state_accepted ((t.s1_low -𝔻 reference) /𝔻 reference)

  accepts-entry_room :
      (stage : SetupStage) (close : Decimal) (trigger : Option B2TriggerSnapshot)
      (target : Option S1Snapshot) (room : EntryRoom)
      → entry_room stage close trigger target config ≡ ok room
      → accepts (is_actionable stage) target room ≡ true
  unfolding entry_room
  accepts-entry_room stage close trigger target room h = by_stage stage h
    where
      closed : ok no_entry_room ≡ ok room → accepts false target room ≡ true
      closed k = subst (λ r. accepts false target r ≡ true) (ok-injective k) refl

      opened :
          (m : Outcome (Decimal × String))
          → (m >>= λ r. ok (room_above r.0 r.1 target config)) ≡ ok room
          → accepts true target room ≡ true
      opened m k =
          let (r, e₀, e) = >>=-eq-ok m (λ r. ok (room_above r.0 r.1 target config)) k in
          subst (λ x. accepts true target x ≡ true) (ok-injective e)
            (accepts-room_above target r.0 r.1)

      by_stage :
          (q : SetupStage)
          → entry_room q close trigger target config ≡ ok room
          → accepts (is_actionable q) target room ≡ true
      by_stage SetupStage.normal k = closed k
      by_stage SetupStage.limit_anchor k = closed k
      by_stage SetupStage.watch_pullback k = closed k
      by_stage SetupStage.invalid k = closed k
      by_stage SetupStage.b1_ready k = opened _ k
      by_stage SetupStage.b2_ready k = opened _ k
      by_stage SetupStage.b2_confirmed k = opened _ k

module _ (config : StrategyConfig) (as_of : Date) (current : DailyBar) (profile : ScoreProfile)
    (d : Decision) (flags : List EventFlag) (reasons : List (EventFlag × List String))
    (score : ScoreBreakdown) where
  -- The entry room that the engine computes for a decision passes the validator's entry-room check:
  -- none outside the actionable stages, and in them a reference, and a headroom and a state that
  -- agree with the target S1.
  pub signal_of-check_entry_room :
      (room : EntryRoom) (ratio : Option Decimal)
      → entry_room d.stage current.close d.trigger (published d.stage d.frozen).target_s1 config
        ≡ ok room
      → check_entry_room (signal_of config as_of current profile d flags reasons score room ratio)
        ≡ true
  unfolding check_entry_room signal_of
  signal_of-check_entry_room room ratio h =
      accepts-entry_room config d.stage current.close d.trigger
        (published d.stage d.frozen).target_s1 room h
