-- ===== src/Patterns.antt =====
-- strategy/patterns.py: the two pullback patterns.
pub mod Selection
pub mod Facts
pub mod Evaluation
