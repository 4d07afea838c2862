-- ===== src/Ssh.antt =====
-- pkg/ssh: the streams that carry SSH and forwarded ports over QUIC.
pub mod Protocol
mod Examples
