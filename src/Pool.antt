-- ===== src/Pool.antt =====
-- src/pool.rs: the pools of client connections.
pub mod Production
pub mod Connections
pub mod Clients
pub mod InTurn
