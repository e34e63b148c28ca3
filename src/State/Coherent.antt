-- ===== src/State/Coherent.antt =====
-- How the stage of a signal and its snapshots go together, and which stage of a setup may follow
-- which.
use a_share_limit_pullback.Base.{Bool, true, false, is_some, is_empty, none, some, ◌≡◌}
use a_share_limit_pullback.Models.Enums.{SetupStage}
use a_share_limit_pullback.Models.Signal.{StrategySignal}
use a_share_limit_pullback.State.Frozen.{frozen_of, nothing_frozen}

abbrev pub IsUnfrozen : StrategySignal → Type 0
IsUnfrozen s = (frozen_of (some s) ≡ nothing_frozen) × (s.b2_trigger ≡ none)

abbrev pub HasLevels : StrategySignal → Type 0
HasLevels s = (is_some s.support ≡ true) × (is_some s.invalid_price_snapshot ≡ true)

abbrev pub IsCoherentAt : SetupStage → StrategySignal → Type 0
IsCoherentAt SetupStage.b1_ready s = HasLevels s × (s.b2_trigger ≡ none)
IsCoherentAt SetupStage.b2_ready s = HasLevels s × (is_some s.b2_trigger ≡ true)
IsCoherentAt SetupStage.b2_confirmed s = HasLevels s × (is_some s.b2_trigger ≡ true)
IsCoherentAt SetupStage.invalid s = HasLevels s × (is_empty s.invalidation_reasons ≡ false)
IsCoherentAt _ s = IsUnfrozen s

abbrev pub IsCoherent : StrategySignal → Type 0
IsCoherent s = IsCoherentAt s.setup_stage s

-- From one day of a setup to a later one.
abbrev pub can_follow : SetupStage → SetupStage → Bool
can_follow SetupStage.b1_ready SetupStage.b2_ready = true
can_follow SetupStage.b1_ready SetupStage.invalid = true
can_follow SetupStage.b1_ready _ = false
can_follow SetupStage.b2_ready SetupStage.b2_ready = true
can_follow SetupStage.b2_ready SetupStage.b2_confirmed = true
can_follow SetupStage.b2_ready SetupStage.invalid = true
can_follow SetupStage.b2_ready _ = false
can_follow SetupStage.b2_confirmed SetupStage.b2_ready = true
can_follow SetupStage.b2_confirmed SetupStage.b2_confirmed = true
can_follow SetupStage.b2_confirmed SetupStage.invalid = true
can_follow SetupStage.b2_confirmed _ = false
can_follow SetupStage.invalid SetupStage.invalid = true
can_follow SetupStage.invalid _ = false
can_follow _ SetupStage.watch_pullback = true
can_follow _ SetupStage.b1_ready = true
can_follow _ _ = false
