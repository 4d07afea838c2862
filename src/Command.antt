-- ===== src/Command.antt =====
-- pkg/command: commands that the server sends to clients.
pub mod Manager
pub mod Multi
mod Examples
