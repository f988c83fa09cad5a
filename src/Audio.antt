-- ===== src/Audio.antt =====
-- The audio timeline of rust-native/agoralink_media/src/audio_timeline.rs and the clocks of
-- rust-native/agoralink_media/src/media_clock.rs.
pub mod Timeline
pub mod Clock
