-- ===== src/Template/Startup.antt =====
-- template/node/src/service.rs: how a node is started.
pub mod Effects
pub mod Libraries
pub mod Partial
pub mod Node
pub mod Keeps
pub mod Started
pub mod Startable
