-- ===== src/Client.antt =====
-- src/client.rs: the clients over a Unix domain socket.
pub mod Stats
pub mod Reliable
mod Tests
pub mod Uds
