-- ===== src/Wire.antt =====
-- The datagram codecs of rust-native/agoralink_media: AGM1 media packets, NACK requests and FEC1
-- parity payloads.
pub mod Media
pub mod Nack
pub mod Fec
