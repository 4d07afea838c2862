-- ===== src/Monitoring.antt =====
-- pkg/monitoring: what the server measures.
pub mod Histogram
