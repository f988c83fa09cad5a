-- ===== src/Scheduling.antt =====
-- The sender's scheduling, rust-native/agoralink_media/src/sender_scheduling.rs: the bounded queue
-- that a capture callback fills, the cadence of deadlines and the latency histogram.
pub mod Queue
pub mod Cadence
