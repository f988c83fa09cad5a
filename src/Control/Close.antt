-- ===== src/Control/Close.antt =====
-- `StreamClose` and `StreamCloseAck`: the request to end a stream and its answer.
pub mod Request
pub mod Answer
pub mod Handshake
