-- ===== src/Tests.antt =====
-- Concrete runs of rust-native/agoralink_media: what the models compute on small inputs, and the
-- theorems applied to them.
mod Codecs
mod Parity
mod Repairs
mod Frames
mod Schedules
mod Controls
mod Transitions
mod Playback
mod Recoveries
