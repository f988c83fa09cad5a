-- ===== src/Control/Feedback.antt =====
-- `CapabilityFeedback`: what a receiver reports of its display and of the stream it gets.
pub mod Versions
pub mod Codec
pub mod Tracker
use agora_link.Prelude.{
  ℕ, ◌*◌, ◌/◌, ◌%◌, ◌<◌, ◌^◌, ◌≡◌, List, [], ◌∷◌, ◌++◌, length, get_or, list_eq, Bool, not, ◌&&◌,
  ◌||◌, leb, ltb, ◌==◌, if◌then◌else◌, Result, ok, guarded,
}
use agora_link.Bytes.{slice}
use agora_link.Control.Fields.{push_fields, read_u32, read_u64}

abbrev pub capability_magic : List ℕ
capability_magic = b'M' ∷ b'C' ∷ b'F' ∷ b'B' ∷ []

abbrev capability_feedback_version : ℕ
capability_feedback_version = 2

abbrev capability_feedback_v1_len : ℕ
capability_feedback_v1_len = 112

abbrev capability_feedback_len : ℕ
capability_feedback_len = 144

-- The bits of the seven state flags, from `FEEDBACK_FLAG_SAMPLE_ELIGIBLE` to
-- `FEEDBACK_FLAG_PROFILE_ACKNOWLEDGED`, all set.
abbrev feedback_known_flags : ℕ
feedback_known_flags = 127

-- The four measurements are 32-bit floating point numbers, held by their bits.
pub record CapabilityFeedback : Type 0 where
  pub version : ℕ
  pub session_id : ℕ
  pub feedback_sequence : ℕ
  pub display_generation : ℕ
  pub display_refresh_numerator : ℕ
  pub display_refresh_denominator : ℕ
  pub display_width : ℕ
  pub display_height : ℕ
  pub present_fps_measured : ℕ
  pub present_interval_p95_ms : ℕ
  pub active_render_fps : ℕ
  pub decoder_input_fps : ℕ
  pub decode_queue_drops_delta : ℕ
  pub render_replacements_delta : ℕ
  pub repair_deadline_missed_delta : ℕ
  pub damaged_gop_delta : ℕ
  pub packets_lost_delta : ℕ
  pub timestamp_us : ℕ
  pub profile_generation : ℕ
  pub state_flags : ℕ
  pub valid_feedback_windows : ℕ
  pub transition_settle_windows : ℕ
  pub transition_settle_duration_ms : ℕ
  pub profile_transition_started_us : ℕ

-- The ranges of the Rust field types.
pub record IsWellTyped (p : CapabilityFeedback) : Type 0 where
  pub version_u8 : p.version < 256
  pub session_id_w : p.session_id < 256 ^ 8
  pub feedback_sequence_w : p.feedback_sequence < 256 ^ 8
  pub display_generation_w : p.display_generation < 256 ^ 8
  pub display_refresh_numerator_w : p.display_refresh_numerator < 256 ^ 4
  pub display_refresh_denominator_w : p.display_refresh_denominator < 256 ^ 4
  pub display_width_w : p.display_width < 256 ^ 4
  pub display_height_w : p.display_height < 256 ^ 4
  pub present_fps_measured_w : p.present_fps_measured < 256 ^ 4
  pub present_interval_p95_ms_w : p.present_interval_p95_ms < 256 ^ 4
  pub active_render_fps_w : p.active_render_fps < 256 ^ 4
  pub decoder_input_fps_w : p.decoder_input_fps < 256 ^ 4
  pub decode_queue_drops_delta_w : p.decode_queue_drops_delta < 256 ^ 8
  pub render_replacements_delta_w : p.render_replacements_delta < 256 ^ 8
  pub repair_deadline_missed_delta_w : p.repair_deadline_missed_delta < 256 ^ 8
  pub damaged_gop_delta_w : p.damaged_gop_delta < 256 ^ 8
  pub packets_lost_delta_w : p.packets_lost_delta < 256 ^ 8
  pub timestamp_us_w : p.timestamp_us < 256 ^ 8
  pub profile_generation_w : p.profile_generation < 256 ^ 8
  pub state_flags_w : p.state_flags < 256 ^ 4
  pub valid_feedback_windows_w : p.valid_feedback_windows < 256 ^ 4
  pub transition_settle_windows_w : p.transition_settle_windows < 256 ^ 4
  pub transition_settle_duration_ms_w : p.transition_settle_duration_ms < 256 ^ 4
  pub profile_transition_started_us_w : p.profile_transition_started_us < 256 ^ 8

-- The first version has no place for the fields of the second, and reads them as zero.
pub record HasZeros (p : CapabilityFeedback) : Type 0 where
  pub profile_generation_zero : p.profile_generation ≡ 0
  pub state_flags_zero : p.state_flags ≡ 0
  pub valid_feedback_windows_zero : p.valid_feedback_windows ≡ 0
  pub transition_settle_windows_zero : p.transition_settle_windows ≡ 0
  pub transition_settle_duration_ms_zero : p.transition_settle_duration_ms ≡ 0
  pub profile_transition_started_us_zero : p.profile_transition_started_us ≡ 0

pub data FeedbackError : Type 0 where
  not_feedback unsupported_version bad_length bad_reserved zero_session zero_denominator bad_refresh
        bad_display bad_metric unknown_flags :
      FeedbackError

-- `validate_metric`: the bits of the numbers from 0.0 up to the maximum are those up to its bits, and
-- the bits of -0.0.
abbrev metric_in_range : ℕ → ℕ → Bool
metric_in_range bits maximum = leb bits maximum || bits == 0x80000000

-- The quotient of two 32-bit numbers, rounded to a 64-bit floating point number, is within 10.0 and
-- 1000.0 exactly when the quotient itself is.
abbrev refresh_in_range : ℕ → ℕ → Bool
refresh_in_range numerator denominator =
    leb (10 * denominator) numerator && leb numerator (1000 * denominator)

-- `CapabilityFeedback::validate`; 0x447A0000 and 0x461C4000 are the bits of 1000.0 and of 10000.0.
abbrev pub feedback_tests : CapabilityFeedback → List (Bool × FeedbackError)
feedback_tests p =
    (not (p.version == 1) && not (p.version == capability_feedback_version), unsupported_version)
    ∷ (p.session_id == 0, zero_session)
    ∷ (p.display_refresh_denominator == 0, zero_denominator)
    ∷ (
      not (p.display_refresh_numerator == 0)
          && not (refresh_in_range p.display_refresh_numerator p.display_refresh_denominator),
      bad_refresh,
    )
    ∷ (ltb 32768 p.display_width || ltb 32768 p.display_height, bad_display)
    ∷ (not (metric_in_range p.present_fps_measured 0x447A0000), bad_metric)
    ∷ (not (metric_in_range p.present_interval_p95_ms 0x461C4000), bad_metric)
    ∷ (not (metric_in_range p.active_render_fps 0x447A0000), bad_metric)
    ∷ (not (metric_in_range p.decoder_input_fps 0x447A0000), bad_metric)
    ∷ (ltb feedback_known_flags p.state_flags, unknown_flags)
    ∷ []

-- What `encode` writes for a version.
unfoldable pub feedback_bytes : ℕ → CapabilityFeedback → List ℕ
feedback_bytes version p =
    capability_magic
    ++ version
      ∷ 0
      ∷ 0
      ∷ 0
      ∷ push_fields (
          (8, p.session_id)
          ∷ (8, p.feedback_sequence)
          ∷ (8, p.display_generation)
          ∷ (4, p.display_refresh_numerator)
          ∷ (4, p.display_refresh_denominator)
          ∷ (4, p.display_width)
          ∷ (4, p.display_height)
          ∷ (4, p.present_fps_measured)
          ∷ (4, p.present_interval_p95_ms)
          ∷ (4, p.active_render_fps)
          ∷ (4, p.decoder_input_fps)
          ∷ (8, p.decode_queue_drops_delta)
          ∷ (8, p.render_replacements_delta)
          ∷ (8, p.repair_deadline_missed_delta)
          ∷ (8, p.damaged_gop_delta)
          ∷ (8, p.packets_lost_delta)
          ∷ (8, p.timestamp_us)
          ∷ [])
    ++ (if leb capability_feedback_version version
        then push_fields (
            (8, p.profile_generation)
            ∷ (4, p.state_flags)
            ∷ (4, p.valid_feedback_windows)
            ∷ (4, p.transition_settle_windows)
            ∷ (4, p.transition_settle_duration_ms)
            ∷ (8, p.profile_transition_started_us)
            ∷ [])
        else [])

unfoldable pub encode : CapabilityFeedback → Result FeedbackError (List ℕ)
encode p = guarded (feedback_tests p) (ok (feedback_bytes p.version p))

abbrev from_second : ℕ → ℕ → ℕ
from_second version value = if leb capability_feedback_version version then value else 0

unfoldable pub read_feedback : ℕ → List ℕ → CapabilityFeedback
read_feedback version bytes = record {
  version = version;
  session_id = read_u64 bytes 8;
  feedback_sequence = read_u64 bytes 16;
  display_generation = read_u64 bytes 24;
  display_refresh_numerator = read_u32 bytes 32;
  display_refresh_denominator = read_u32 bytes 36;
  display_width = read_u32 bytes 40;
  display_height = read_u32 bytes 44;
  present_fps_measured = read_u32 bytes 48;
  present_interval_p95_ms = read_u32 bytes 52;
  active_render_fps = read_u32 bytes 56;
  decoder_input_fps = read_u32 bytes 60;
  decode_queue_drops_delta = read_u64 bytes 64;
  render_replacements_delta = read_u64 bytes 72;
  repair_deadline_missed_delta = read_u64 bytes 80;
  damaged_gop_delta = read_u64 bytes 88;
  packets_lost_delta = read_u64 bytes 96;
  timestamp_us = read_u64 bytes 104;
  profile_generation = from_second version (read_u64 bytes 112);
  state_flags = from_second version (read_u32 bytes 120);
  valid_feedback_windows = from_second version (read_u32 bytes 124);
  transition_settle_windows = from_second version (read_u32 bytes 128);
  transition_settle_duration_ms = from_second version (read_u32 bytes 132);
  profile_transition_started_us = from_second version (read_u64 bytes 136);
}

abbrev expected_len : ℕ → ℕ
expected_len version = if version == 1 then capability_feedback_v1_len else capability_feedback_len

abbrev pub opening_tests : List ℕ → List (Bool × FeedbackError)
opening_tests bytes =
    let version = get_or bytes 4 0 in
    (ltb (length bytes) 5 || not (list_eq (slice bytes 0 4) capability_magic), not_feedback)
    ∷ (not (version == 1) && not (version == capability_feedback_version), unsupported_version)
    ∷ (not (length bytes == expected_len version), bad_length)
    ∷ (not (list_eq (slice bytes 5 3) (0 ∷ 0 ∷ 0 ∷ [])), bad_reserved)
    ∷ []

unfoldable pub decode : List ℕ → Result FeedbackError CapabilityFeedback
decode bytes =
    let p = read_feedback (get_or bytes 4 0) bytes in
    guarded (opening_tests bytes) (guarded (feedback_tests p) (ok p))

-- `has_flag` for the flag `1 << bit`
abbrev feedback_flag : CapabilityFeedback → ℕ → Bool
feedback_flag p bit = p.state_flags / 2 ^ bit % 2 == 1

abbrev sample_eligible : CapabilityFeedback → Bool
sample_eligible p = leb capability_feedback_version p.version && feedback_flag p 0
