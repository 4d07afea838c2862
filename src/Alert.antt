-- ===== src/Alert.antt =====
-- pkg/alert: the rules of alerts and the life of the alerts themselves.
pub mod Processor
