-- ===== src/Models.antt =====
-- The records of src/limit_pullback/models, with the validators of each.
pub mod Enums
pub mod Codes
pub mod Config
pub mod Market
pub mod Snapshots
pub mod Strategy
pub mod Score
pub mod Signal
pub mod Labels
pub mod Outcome
pub mod TradePlan
