-- ===== src/Control.antt =====
-- The media control datagrams of rust-native/agoralink_media/src/media_control.rs.
pub mod Fields
pub mod Profile
pub mod Close
pub mod Feedback
