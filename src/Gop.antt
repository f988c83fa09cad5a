-- ===== src/Gop.antt =====
-- What follows a lost frame: `DamagedGopTracker` of rust-native/agoralink_media/src/h264_reassembly.rs on
-- the scan of NAL units of rust-native/agoralink_media/src/h264_annex_b.rs.
pub mod AnnexB
pub mod Tracker
pub mod Resumption
