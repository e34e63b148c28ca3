-- ===== src/Structure.antt =====
-- strategy/structure.py and features/structure/prices.py.
pub mod Prices
pub mod Limits
pub mod Anchor
pub mod Support
pub mod Resistance
pub mod Levels
