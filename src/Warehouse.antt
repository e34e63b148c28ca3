-- ===== src/Warehouse.antt =====
-- warehouse/continuity.py: the previous close of each staged row.
pub mod Continuity
pub mod Mirror
pub mod Predecessor
