-- ===== src/Reassembly.antt =====
-- `H264Reassembler` of rust-native/agoralink_media/src/h264_reassembly.rs: its state. The child
-- modules hold its operations. An `Instant` and a `Duration` are numbers of nanoseconds; the two
-- statistics that are floating point numbers are left out.
pub mod Frames
pub mod Completion
pub mod Intake
pub mod Arrival
pub mod Requests
pub mod Nacks
pub mod Release
pub mod Slots
pub mod Soundness
use agora_link.Prelude.{
  ℕ, zero, suc, ◌+◌, ◌-◌, ◌*◌, ◌/◌, ◌%◌, ◌^◌, min, Bool, true, false, List, [], ◌∷◌, Option, none,
  some, replicate, if◌then◌else◌, ◌==◌, Result, ok, err, guarded,
}
use agora_link.Map.{Map}
use agora_link.Wire.Fec.{FecParity}

abbrev pub max_inflight_packet_slots : ℕ
max_inflight_packet_slots = 64 * 1024

abbrev pub max_inflight_payload_bytes : ℕ
max_inflight_payload_bytes = 64 * 1024 * 1024

abbrev pub max_inflight_frames_limit : ℕ
max_inflight_frames_limit = 120

pub data ReorderWait : Type 0 where
  auto : ReorderWait
  fixed : ℕ → ReorderWait

pub record ReassemblyConfig : Type 0 where
  pub frame_timeout : ℕ
  pub reorder_wait : ReorderWait
  pub max_inflight_frames : ℕ

pub record ReassemblyStats : Type 0 where
  pub packets_received : ℕ
  pub packets_invalid : ℕ
  pub packets_lost_estimate : ℕ
  pub frames_complete : ℕ
  pub frames_incomplete_expired : ℕ
  pub bytes_received : ℕ
  pub last_frame_id : Option ℕ
  pub last_damaged_frame_id : Option ℕ
  pub next_decode_frame_id : Option ℕ
  pub decode_gate_stalls : ℕ
  pub decode_gate_gap_events : ℕ
  pub frames_discarded_decode_gate : ℕ
  pub reorder_wait_ms : ℕ
  pub fec_packets_received : ℕ
  pub fec_protected_data_packets_received : ℕ
  pub fec_frames_recovered : ℕ
  pub fec_packets_recovered : ℕ
  pub fec_recovery_failed_multi_missing : ℕ
  pub fec_recovery_failed_no_parity : ℕ
  pub fec_recovery_failed_invalid : ℕ
  pub frames_missing_after_fec : ℕ
  pub frames_dropped_after_fec : ℕ
  pub reassembly_frames_active : ℕ
  pub reassembly_packets_active : ℕ
  pub reassembly_packet_slots_reserved : ℕ
  pub reassembly_payload_bytes_reserved : ℕ
  pub reassembly_budget_rejected_frames : ℕ
  pub reassembly_oversize_frames : ℕ
  pub reassembly_allocations_estimate : ℕ
  pub reassembly_complete_scan_count : ℕ
  pub nack_requests_cancelled_by_progress : ℕ

pub record EncodedFrame : Type 0 where
  pub frame_id : ℕ
  pub flags : ℕ
  pub timestamp_ms : ℕ
  pub bytes : List ℕ

pub record FrameAssembly : Type 0 where
  pub packet_count : ℕ
  pub reserved_payload_bytes : ℕ
  pub packets : List (Option (List ℕ))
  pub received_count : ℕ
  pub missing_count : ℕ
  pub received_bytes : ℕ
  pub first_seen : ℕ
  pub last_packet_arrival_time : ℕ
  pub last_progress_time : ℕ
  pub highest_received_packet_index : ℕ
  pub flags : ℕ
  pub timestamp_ms : ℕ
  pub fec_parity : Option FecParity
  pub fec_expected : Bool
  pub fec_invalid : Bool
  pub last_nack_at : Option ℕ
  pub nack_rounds : ℕ
  pub nack_requested_at : List (Option ℕ)
  pub missing_first_detected_at : Option ℕ
  pub missing_detection_reported : Bool
  pub first_nack_at : Option ℕ

-- `FrameAssembly::new`
unfoldable pub new_assembly : ℕ → ℕ → ℕ → ℕ → Bool → FrameAssembly
new_assembly packet_count reserved_payload_bytes now timestamp_ms fec_expected = record {
  packet_count = packet_count;
  reserved_payload_bytes = reserved_payload_bytes;
  packets = replicate packet_count none;
  received_count = 0;
  missing_count = packet_count;
  received_bytes = 0;
  first_seen = now;
  last_packet_arrival_time = now;
  last_progress_time = now;
  highest_received_packet_index = 0;
  flags = 0;
  timestamp_ms = timestamp_ms;
  fec_parity = none;
  fec_expected = fec_expected;
  fec_invalid = false;
  last_nack_at = none;
  nack_rounds = 0;
  nack_requested_at = replicate packet_count none;
  missing_first_detected_at = none;
  missing_detection_reported = false;
  first_nack_at = none;
}

unfoldable pub confirmed_missing_count : FrameAssembly → ℕ
confirmed_missing_count f =
    if f.received_count == 0
    then 0
    else min (f.highest_received_packet_index + 1) (2 ^ 16 - 1) - f.received_count

-- `observed_frame_interval_ms` is a 64-bit floating point number, held by its bits.
pub record H264Reassembler : Type 0 where
  pub config : ReassemblyConfig
  pub session_id : Option ℕ
  pub inflight : Map ℕ FrameAssembly
  pub complete : Map ℕ EncodedFrame
  pub skipped : List ℕ
  pub next_frame : Option ℕ
  pub highest_seen_frame : Option ℕ
  pub blocked_since : Option ℕ
  pub last_timing_frame : Option (ℕ × ℕ)
  pub observed_frame_interval_ms : Option ℕ
  pub repair_window : Option ℕ
  pub inflight_packet_slots : ℕ
  pub inflight_payload_bytes : ℕ
  pub stats : ReassemblyStats

-- Floating point arithmetic: the moving average of the frame interval, given the average so far, the
-- milliseconds and the frames since the last sample; the wait that is derived from it; and a duration
-- in rounded milliseconds, at least 1.
pub record FloatTiming : Type 0 where
  pub average_interval : Option ℕ → ℕ → ℕ → Option ℕ
  pub auto_wait : Option ℕ → ℕ
  pub duration_ms_rounded : ℕ → ℕ

-- `+= 1` and `+= n` on a u64.
abbrev pub inc : ℕ → ℕ
inc n = (n + 1) % 2 ^ 64

abbrev pub plus : ℕ → ℕ → ℕ
plus n m = (n + m) % 2 ^ 64

pub data ReassemblyError : Type 0 where
  zero_frame_timeout zero_reorder_wait zero_max_inflight_frames : ReassemblyError

abbrev wait_is_zero : ReorderWait → Bool
wait_is_zero auto = false
wait_is_zero (fixed wait) = wait == 0

abbrev initial_wait_ms : FloatTiming → ReorderWait → ℕ
initial_wait_ms float auto = 50
initial_wait_ms float (fixed wait) = float.duration_ms_rounded wait

-- `H264Reassembler::new` after its tests.
unfoldable pub new_with : FloatTiming → ReassemblyConfig → H264Reassembler
new_with float config = record {
  config = config;
  session_id = none;
  inflight = [];
  complete = [];
  skipped = [];
  next_frame = none;
  highest_seen_frame = none;
  blocked_since = none;
  last_timing_frame = none;
  observed_frame_interval_ms = none;
  repair_window = none;
  inflight_packet_slots = 0;
  inflight_payload_bytes = 0;
  stats = record {
    reorder_wait_ms = initial_wait_ms float config.reorder_wait;
    packets_received = 0;
    packets_invalid = 0;
    packets_lost_estimate = 0;
    frames_complete = 0;
    frames_incomplete_expired = 0;
    bytes_received = 0;
    last_frame_id = none;
    last_damaged_frame_id = none;
    next_decode_frame_id = none;
    decode_gate_stalls = 0;
    decode_gate_gap_events = 0;
    frames_discarded_decode_gate = 0;
    fec_packets_received = 0;
    fec_protected_data_packets_received = 0;
    fec_frames_recovered = 0;
    fec_packets_recovered = 0;
    fec_recovery_failed_multi_missing = 0;
    fec_recovery_failed_no_parity = 0;
    fec_recovery_failed_invalid = 0;
    frames_missing_after_fec = 0;
    frames_dropped_after_fec = 0;
    reassembly_frames_active = 0;
    reassembly_packets_active = 0;
    reassembly_packet_slots_reserved = 0;
    reassembly_payload_bytes_reserved = 0;
    reassembly_budget_rejected_frames = 0;
    reassembly_oversize_frames = 0;
    reassembly_allocations_estimate = 0;
    reassembly_complete_scan_count = 0;
    nack_requests_cancelled_by_progress = 0;
  };
}

unfoldable pub new : FloatTiming → ReassemblyConfig → Result ReassemblyError H264Reassembler
unfolding new_with
new float config =
    guarded
      ((config.frame_timeout == 0, zero_frame_timeout)
        ∷ (wait_is_zero config.reorder_wait, zero_reorder_wait)
        ∷ (config.max_inflight_frames == 0, zero_max_inflight_frames)
        ∷ [])
      (ok (new_with float config))
