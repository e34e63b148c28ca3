-- ===== src/State/Entry.antt =====
-- state/engine_helpers.py: the room for an entry, the reward for its risk, and its score.
use a_share_limit_pullback.Base.{
  Bool, true, false, String, ◌||◌, Option, none, some, List, [], ◌∷◌, if◌then◌else◌, any, Outcome,
  ok, raised, assertion, ◌>>=◌,
}
use a_share_limit_pullback.Decimal.{
  Decimal, nought, one, ◌≤𝔻◌, ◌<𝔻◌, ◌-𝔻◌, ◌*𝔻◌, ◌/𝔻◌, quantize, minimum, maximum,
}
use a_share_limit_pullback.Models.Config.{StrategyConfig}
use a_share_limit_pullback.Models.Enums.{
  SetupStage, EntryRoomState, DataQuality, EventFlag, is_actionable, is_unusable, room_is_none,
  room_is_thin, flag_eq,
}
use a_share_limit_pullback.Models.Snapshots.{B2TriggerSnapshot, S1Snapshot}
use a_share_limit_pullback.Models.Strategy.{PriceCluster}

-- the returned tuple
pub record EntryRoom : Type 0 where
  pub reference : Option Decimal
  pub headroom : Option Decimal
  pub state : Option EntryRoomState
  pub reasons : List String

abbrev pub no_entry_room : EntryRoom
no_entry_room = record { reference = none; headroom = none; state = none; reasons = [] }

-- the entry's reference price and the reason for it; `assert trigger is not None` at B2_READY
unfoldable pub entry_reference :
    SetupStage → Decimal → Option B2TriggerSnapshot → Outcome (Decimal × String)
entry_reference SetupStage.b2_ready current_close none = raised assertion
entry_reference SetupStage.b2_ready current_close (some trigger) =
    ok (maximum current_close trigger.trigger_price, "B2_READY_MAX_CLOSE_AND_TRIGGER")
entry_reference SetupStage.b2_confirmed current_close trigger =
    ok (current_close, "B2_CONFIRMED_CLOSE")
entry_reference _ current_close trigger = ok (current_close, "B1_READY_CLOSE")

unfoldable pub headroom_state : Decimal → StrategyConfig → EntryRoomState × String
headroom_state headroom config =
    if headroom ≤𝔻 nought
    then (EntryRoomState.none, "TARGET_S1_AT_OR_BELOW_ENTRY_REFERENCE")
    else if headroom <𝔻 config.entry_room.thin_headroom_max
    then (EntryRoomState.thin, "TARGET_S1_HEADROOM_THIN")
    else (EntryRoomState.sufficient, "TARGET_S1_HEADROOM_SUFFICIENT")

-- the room above a reference price
unfoldable pub room_above : Decimal → String → Option S1Snapshot → StrategyConfig → EntryRoom
room_above reference reason none config = record {
  reference = some reference;
  headroom = none;
  state = some EntryRoomState.open_space;
  reasons = reason ∷ "NO_RELIABLE_TARGET_S1" ∷ [];
}
room_above reference reason (some target) config =
    let headroom = (target.s1_low -𝔻 reference) /𝔻 reference in
    let found = headroom_state headroom config in
    record {
      reference = some reference;
      headroom = some headroom;
      state = some found.0;
      reasons = reason ∷ found.1 ∷ [];
    }

unfoldable pub entry_room :
    SetupStage
    → Decimal
    → Option B2TriggerSnapshot
    → Option S1Snapshot
    → StrategyConfig
    → Outcome EntryRoom
entry_room stage current_close trigger target_s1 config = elim (is_actionable stage) [
  | false ↦ ok no_entry_room
  | true ↦ do
    r ← entry_reference stage current_close trigger
    ok (room_above r.0 r.1 target_s1 config)
]

unfoldable pub risk_reward : Decimal → Decimal → Option PriceCluster → Option Decimal
risk_reward current_close invalid_price none = none
risk_reward current_close invalid_price (some s1) =
    let potential_loss = current_close -𝔻 invalid_price in
    if s1.low ≤𝔻 current_close
    then none
    else if potential_loss ≤𝔻 nought
    then none
    else some ((s1.low -𝔻 current_close) /𝔻 potential_loss)

abbrev pub has_flag : EventFlag → List EventFlag → Bool
has_flag flag flags = any (flag_eq flag) flags

abbrev is_room : (EntryRoomState → Bool) → Option EntryRoomState → Bool
is_room test none = false
is_room test (some s) = test s

-- the factor after the THIN room
unfoldable pub thin_factor : Option Decimal → Option EntryRoomState → StrategyConfig → Decimal
thin_factor none state config = one
thin_factor (some headroom) state config =
    if is_room room_is_thin state
    then minimum one (maximum nought (headroom /𝔻 config.entry_room.thin_headroom_max))
    else one

-- and after the reward for the risk
unfoldable pub reward_factor : Decimal → Option Decimal → StrategyConfig → Decimal
reward_factor factor none config = factor
reward_factor factor (some ratio) config =
    minimum (minimum factor (ratio /𝔻 config.entry_room.minimum_risk_reward)) one

-- what forces the score to zero
unfoldable pub is_disqualified : DataQuality → List EventFlag → Option EntryRoomState → Bool
is_disqualified data_quality event_flags state =
    is_unusable data_quality
    || is_room room_is_none state
    || has_flag EventFlag.s1_breakout event_flags
    || has_flag EventFlag.s2_exhausted event_flags

unfoldable pub entry_quality_score :
    Decimal
    → SetupStage
    → DataQuality
    → List EventFlag
    → EntryRoom
    → Option Decimal
    → StrategyConfig
    → Option Decimal
entry_quality_score setup_quality stage data_quality event_flags room ratio config =
    let places = config.scoring.normalized_score_quantum.scale in
    let factor = reward_factor (thin_factor room.headroom room.state config) ratio config in
    if is_actionable stage
    then some (
        if is_disqualified data_quality event_flags room.state
        then quantize nought places
        else quantize (setup_quality *𝔻 factor) places)
    else none
