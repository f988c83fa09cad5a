-- ===== src/Audio/Clock.antt =====
-- `QpcMediaTimestampMapper` and `ReceiverMediaClockAnchor`. The frequency of the performance counter and
-- the reading of the monotonic clock come from the system, and are arguments.
pub mod Cadence
use agora_link.Prelude.{
  ◌%◌, ◌^◌, ℕ, ◌+◌, ◌-◌, ◌*◌, ◌/◌, ◌^◌, min, Bool, true, false, ltb, ◌==◌, if◌then◌else◌, Option,
  none, some, count_up,
}
use agora_link.Audio.Timeline.{saturated}

pub record QpcMediaTimestampMapper : Type 0 where
  pub qpc_frequency : Option ℕ
  pub anchor_qpc : Option ℕ
  pub anchor_media_us : Option ℕ
  pub qpc_errors : ℕ

abbrev pub new_mapper : Option ℕ → QpcMediaTimestampMapper
new_mapper frequency = record {
  qpc_frequency = frequency;
  anchor_qpc = none;
  anchor_media_us = none;
  qpc_errors = 0;
}

abbrev pub anchor_or : Option ℕ → ℕ → ℕ
anchor_or none n = n
anchor_or (some anchor) n = anchor

abbrev count_error : QpcMediaTimestampMapper → QpcMediaTimestampMapper
count_error m = record m { qpc_errors = count_up m.qpc_errors }

-- The microseconds of a number of ticks; a `checked_div` by zero gives zero, as `/` does here.
abbrev pub ticks_us : ℕ → ℕ → ℕ
ticks_us frequency ticks = min (min (ticks * 1000000) (2 ^ 128 - 1) / frequency) (2 ^ 64 - 1)

-- The mapping once the anchors are set.
abbrev map_anchored :
    QpcMediaTimestampMapper → ℕ → ℕ → ℕ → ℕ → ℕ → QpcMediaTimestampMapper × ℕ × Bool
map_anchored m frequency anchor_qpc anchor_media_us qpc_position fallback_now_us =
    if ltb qpc_position anchor_qpc
    then (count_error m, fallback_now_us, false)
    else (m, saturated (anchor_media_us + ticks_us frequency (qpc_position - anchor_qpc)), true)

abbrev pub map_with :
    Option ℕ → QpcMediaTimestampMapper → ℕ → ℕ → QpcMediaTimestampMapper × ℕ × Bool
map_with none m qpc_position fallback_now_us = (m, fallback_now_us, false)
map_with (some frequency) m qpc_position fallback_now_us =
    let anchor_qpc = anchor_or m.anchor_qpc qpc_position in
    let anchor_media_us = anchor_or m.anchor_media_us fallback_now_us in
    if qpc_position == 0
    then (count_error m, fallback_now_us, false)
    else map_anchored
        (record m { anchor_qpc = some anchor_qpc; anchor_media_us = some anchor_media_us })
        frequency anchor_qpc anchor_media_us qpc_position fallback_now_us

unfoldable pub map_capture_timestamp :
    QpcMediaTimestampMapper → ℕ → ℕ → QpcMediaTimestampMapper × ℕ × Bool
map_capture_timestamp m qpc_position fallback_now_us =
    map_with m.qpc_frequency m qpc_position fallback_now_us

record ReceiverMediaClockAnchor : Type 0 where
  pub first_media_timestamp_us : Option ℕ
  pub receiver_clock_anchor_us : Option ℕ
  pub playout_delay_ms : ℕ
  pub last_audio_timestamp_us : Option ℕ
  pub last_video_timestamp_us : Option ℕ

abbrev new_anchor : ℕ → ReceiverMediaClockAnchor
new_anchor delay_ms = record {
  first_media_timestamp_us = none;
  receiver_clock_anchor_us = none;
  playout_delay_ms = delay_ms;
  last_audio_timestamp_us = none;
  last_video_timestamp_us = none;
}

abbrev anchored_by : Option ℕ → ReceiverMediaClockAnchor → ℕ → ℕ → ReceiverMediaClockAnchor
anchored_by (some first) a timestamp now_us = a
anchored_by none a timestamp now_us = record a {
  first_media_timestamp_us = some timestamp;
  receiver_clock_anchor_us = some ((now_us + saturated (a.playout_delay_ms * 1000)) % 2 ^ 64);
}

-- `ReceiverMediaClockAnchor::observe`, at a reading of the clock.
unfoldable observe_timestamp : ReceiverMediaClockAnchor → ℕ → ℕ → ReceiverMediaClockAnchor
observe_timestamp a timestamp now_us = anchored_by a.first_media_timestamp_us a timestamp now_us

unfoldable observe_audio : ReceiverMediaClockAnchor → ℕ → ℕ → ReceiverMediaClockAnchor
observe_audio a timestamp now_us = record (observe_timestamp a timestamp now_us) {
  last_audio_timestamp_us = some timestamp;
}

unfoldable observe_video : ReceiverMediaClockAnchor → ℕ → ℕ → ReceiverMediaClockAnchor
observe_video a timestamp now_us = record (observe_timestamp a timestamp now_us) {
  last_video_timestamp_us = some timestamp;
}
