-- ===== src/Control/Profile.antt =====
-- `ProfileChange` and `ProfileAck`: the request to change the video profile and its answer.
pub mod Change
pub mod Ack
