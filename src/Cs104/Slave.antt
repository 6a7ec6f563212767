-- ===== src/Cs104/Slave.antt =====
-- The server of cs104/cs104_slave.c.
pub mod HighPriorityQueue
