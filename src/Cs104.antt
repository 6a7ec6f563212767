-- ===== src/Cs104.antt =====
-- The IEC 60870-5-104 transport of src/iec60870/cs104.
pub mod Window
pub mod KBuffer
pub mod Frame
pub mod Plugin
pub mod SystemTime
pub mod Connection
mod Tests
pub mod Slave
