-- ===== src/Models/Enums.antt =====
-- models/enums.py, the enumerations of the strategy.
use a_share_limit_pullback.Base.{Bool, true, false, ℕ, ◌==◌}

pub data SetupStage : Type 0 where
  normal limit_anchor watch_pullback b1_ready b2_ready b2_confirmed invalid : SetupStage

pub data EventFlag : Type 0 where
  near_s1 s1_breakout s2_exhausted support_warning : EventFlag

pub data ReviewGroup : Type 0 where
  standard open_space : ReviewGroup

pub data DataQuality : Type 0 where
  ok partial degraded unusable : DataQuality

pub data ScoreProfile : Type 0 where
  full price_only : ScoreProfile

pub data PatternType : Type 0 where
  air_refuel bearish_pullback : PatternType

pub data EntryRoomState : Type 0 where
  sufficient thin none open_space : EntryRoomState

-- `stage in ACTIONABLE`, which is also `stage in ENTRY_CANDIDATE_STAGES`
abbrev pub is_actionable : SetupStage → Bool
is_actionable SetupStage.b1_ready = true
is_actionable SetupStage.b2_ready = true
is_actionable SetupStage.b2_confirmed = true
is_actionable _ = false

-- `stage is SetupStage.INVALID` and the like
abbrev pub is_invalid : SetupStage → Bool
is_invalid SetupStage.invalid = true
is_invalid _ = false

abbrev pub is_b1_ready : SetupStage → Bool
is_b1_ready SetupStage.b1_ready = true
is_b1_ready _ = false

abbrev pub is_b2_ready : SetupStage → Bool
is_b2_ready SetupStage.b2_ready = true
is_b2_ready _ = false

abbrev pub is_b2_confirmed : SetupStage → Bool
is_b2_confirmed SetupStage.b2_confirmed = true
is_b2_confirmed _ = false

abbrev pub is_limit_anchor : SetupStage → Bool
is_limit_anchor SetupStage.limit_anchor = true
is_limit_anchor _ = false

abbrev pub is_price_only : ScoreProfile → Bool
is_price_only ScoreProfile.price_only = true
is_price_only ScoreProfile.full = false

abbrev pub is_unusable : DataQuality → Bool
is_unusable DataQuality.unusable = true
is_unusable _ = false

abbrev pub is_open_space : ReviewGroup → Bool
is_open_space ReviewGroup.open_space = true
is_open_space ReviewGroup.standard = false

-- The order of the enumeration's text values, by which event flags are sorted.
abbrev pub flag_rank : EventFlag → ℕ
flag_rank EventFlag.near_s1 = 0
flag_rank EventFlag.s1_breakout = 1
flag_rank EventFlag.s2_exhausted = 2
flag_rank EventFlag.support_warning = 3

abbrev pub flag_eq : EventFlag → EventFlag → Bool
flag_eq a b = flag_rank a == flag_rank b

abbrev pub room_is_none : EntryRoomState → Bool
room_is_none EntryRoomState.none = true
room_is_none _ = false

abbrev pub room_is_thin : EntryRoomState → Bool
room_is_thin EntryRoomState.thin = true
room_is_thin _ = false

abbrev pub room_is_open : EntryRoomState → Bool
room_is_open EntryRoomState.open_space = true
room_is_open _ = false
