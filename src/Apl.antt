-- ===== src/Apl.antt =====
-- The information elements of the application layer, in src/iec60870/apl.
pub mod Time
