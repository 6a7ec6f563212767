-- ===== src/Cs101.antt =====
-- The application layer of src/iec60870/cs101.
pub mod Asdu
pub mod BinaryCounterReading
pub mod Objects
pub mod Header
pub mod Queue
