-- ===== src/State.antt =====
-- state/engine.py and state/engine_helpers.py: the setup state engine. `Evaluate` composes the
-- other modules as `evaluate_strategy` does.
pub mod Identity
pub mod Entry
pub mod Confirm
pub mod Invalidation
pub mod Events
pub mod Inputs
pub mod Frozen
pub mod Levels
pub mod Transition
pub mod Publish
pub mod Coherent
pub mod Decide
pub mod Evaluate
pub mod PointInTime
pub mod Setup
