-- ===== src/Audio/Timeline.antt =====
-- `AudioTimeline`: what was submitted to the output device, and what of it can be heard.
pub mod Master
use agora_link.Prelude.{
  ℕ, ◌+◌, ◌-◌, ◌*◌, ◌/◌, ◌^◌, min, max, Bool, true, false, Option, none, some, count_up,
}

-- `u64::saturating_add` and `u64::saturating_mul`: a result past the largest number is that number.
abbrev pub saturated : ℕ → ℕ
saturated n = min n (2 ^ 64 - 1)

pub record AudioTimelineSnapshot : Type 0 where
  pub latest_received_timestamp_us : Option ℕ
  pub submitted_media_timestamp_us : Option ℕ
  pub audible_media_timestamp_us : Option ℕ
  pub device_padding_frames : ℕ
  pub media_samples_submitted_total : ℕ
  pub media_samples_audible_estimated_total : ℕ
  pub discontinuities : ℕ
  pub master_reanchors : ℕ
  pub valid : Bool

pub record AudioTimeline : Type 0 where
  pub sample_rate : ℕ
  pub snapshot : AudioTimelineSnapshot
  pub awaiting_reanchor : Bool

unfoldable pub new_timeline : ℕ → AudioTimeline
new_timeline sample_rate = record {
  sample_rate = sample_rate;
  snapshot = record {
    latest_received_timestamp_us = none;
    submitted_media_timestamp_us = none;
    audible_media_timestamp_us = none;
    device_padding_frames = 0;
    media_samples_submitted_total = 0;
    media_samples_audible_estimated_total = 0;
    discontinuities = 0;
    master_reanchors = 0;
    valid = false;
  };
  awaiting_reanchor = false;
}

unfoldable pub observe_received_packet : AudioTimeline → ℕ → AudioTimeline
observe_received_packet t timestamp_us = record t {
  snapshot = record t.snapshot { latest_received_timestamp_us = some timestamp_us };
}

abbrev count_reanchor : Bool → ℕ → ℕ
count_reanchor true n = count_up n
count_reanchor false n = n

-- How long the device plays what it holds.
abbrev padding_us : ℕ → ℕ → ℕ
padding_us sample_rate device_padding_frames =
    saturated (device_padding_frames * 1000000) / max sample_rate 1

unfoldable pub submit_media : AudioTimeline → ℕ → ℕ → ℕ → AudioTimeline
submit_media t submitted media_frames padding = record t {
  awaiting_reanchor = false;
  snapshot = record t.snapshot {
    master_reanchors = count_reanchor t.awaiting_reanchor t.snapshot.master_reanchors;
    valid = true;
    submitted_media_timestamp_us = some submitted;
    device_padding_frames = padding;
    media_samples_submitted_total =
        saturated (t.snapshot.media_samples_submitted_total + media_frames);
    audible_media_timestamp_us = some (submitted - padding_us t.sample_rate padding);
    media_samples_audible_estimated_total =
        saturated (t.snapshot.media_samples_submitted_total + media_frames) - padding;
  };
}

unfoldable pub mark_discontinuity : AudioTimeline → AudioTimeline
mark_discontinuity t = record t {
  snapshot = record t.snapshot {
    valid = false;
    discontinuities = count_up t.snapshot.discontinuities;
  };
  awaiting_reanchor = true;
}

unfoldable pub mark_inactive : AudioTimeline → AudioTimeline
mark_inactive t = record t { snapshot = record t.snapshot { valid = false } }
