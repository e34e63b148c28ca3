-- ===== src/Plans.antt =====
-- trade_plan.py: the plan that a signal gives for the next session.
pub mod Facts
pub mod Conditions
pub mod Build
pub mod Zone
pub mod Clear
pub mod Prefix
pub mod NextSession
