-- ===== src/Derived.antt =====
-- derived_limit_event.py: limit-up events from daily rows, and their external enrichment.
pub mod Events
pub mod Enrichment
pub mod DailyBars
