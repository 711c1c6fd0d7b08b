-- ===== src/Server.antt =====
-- src/server: the exchange simulator.
pub mod Program
pub mod ClientManager
pub mod Exchange
pub mod Generator
pub mod Listener
