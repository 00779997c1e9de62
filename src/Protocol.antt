-- ===== src/Protocol.antt =====
-- library/protocol: the commands, their binary encoding, and their execution.
pub mod Command
pub mod Binary
pub mod Executor
