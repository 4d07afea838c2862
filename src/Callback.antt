-- ===== src/Callback.antt =====
-- pkg/callback: promises, the answers awaited for messages sent, and their manager.
pub mod Promise
pub mod Manager
mod Examples
