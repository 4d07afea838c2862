-- ===== src/Session.antt =====
-- pkg/session: the sessions of the connected clients, their registries and the heartbeat checks.
pub mod Client
pub mod Manager
pub mod Paging
pub mod TimeWheel
pub mod Sharded
mod Examples
