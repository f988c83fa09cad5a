-- ===== src/Reassembly/Intake.antt =====
-- What an arriving packet changes in its frame and in the counters.
use Prim.Native.Nat.{bit_and, bit_or}
use agora_link.Prelude.{
  ℕ, ◌+◌, ◌-◌, ◌%◌, ◌^◌, max, Bool, true, false, not, ◌&&◌, ◌||◌, ltb, ◌==◌, List, Option, none,
  some, length, set, get_elem?, if◌then◌else◌,
}
use agora_link.Map.{nat_eq}
use agora_link.Wire.Media.{MediaPacket}
use agora_link.Fec.{flag_fec, flag_fec_protected}
use agora_link.Repair.{bump}
use agora_link.Reassembly.{H264Reassembler, FrameAssembly, confirmed_missing_count, inc}
use agora_link.Reassembly.Frames.{expire_inflight_frame}

abbrev pub has_flag : ℕ → ℕ → Bool
has_flag flags flag = not (bit_and flags flag == 0)

abbrev pub or_now : Option ℕ → ℕ → Option ℕ
or_now none now = some now
or_now (some t) now = some t

abbrev pub is_some : {A : Type 0} → Option A → Bool
is_some none = false
is_some (some a) = true

abbrev pub count_invalid : H264Reassembler → H264Reassembler
count_invalid s = record s {
  stats = record s.stats { packets_invalid = inc s.stats.packets_invalid };
}

-- The payload goes in its slot, which is empty. The counts are 16 bits wide.
unfoldable pub fill_slot : FrameAssembly → MediaPacket → ℕ → FrameAssembly
fill_slot entry packet now = record entry {
  received_bytes = entry.received_bytes + length packet.payload;
  packets = set entry.packets packet.packet_index (some packet.payload);
  received_count = (entry.received_count + 1) % 2 ^ 16;
  missing_count = (entry.missing_count + (2 ^ 16 - 1)) % 2 ^ 16;
  last_progress_time = now;
  highest_received_packet_index = max entry.highest_received_packet_index packet.packet_index;
  nack_requested_at = set entry.nack_requested_at packet.packet_index none;
}

-- `entry.packets[index].is_none()`, for an index within the packets.
abbrev pub slot_is_empty : Option (Option (List ℕ)) → Bool
slot_is_empty (some none) = true
slot_is_empty (some (some payload)) = false
slot_is_empty none = false

abbrev pub touch : FrameAssembly → MediaPacket → ℕ → FrameAssembly
touch entry packet now = record entry {
  last_packet_arrival_time = now;
  flags = bit_or entry.flags packet.flags;
  fec_expected = entry.fec_expected || has_flag packet.flags flag_fec_protected;
}

unfoldable pub take_packet : FrameAssembly → MediaPacket → ℕ → FrameAssembly
unfolding fill_slot
take_packet entry packet now =
    let touched = touch entry packet now in
    if slot_is_empty (get_elem? entry.packets packet.packet_index)
    then fill_slot touched packet now
    else touched

-- A gap is noted when it is first seen, and forgotten when it closes before it was asked for.
abbrev pub had_unrequested_gap : FrameAssembly → Bool
had_unrequested_gap entry =
    is_some entry.missing_first_detected_at && not (is_some entry.first_nack_at)

unfoldable pub note_gap : FrameAssembly → Bool → ℕ → FrameAssembly
unfolding confirmed_missing_count
note_gap entry had_gap now =
    if ltb 0 (confirmed_missing_count entry)
    then record entry { missing_first_detected_at = or_now entry.missing_first_detected_at now }
    else if had_gap
    then record entry { missing_first_detected_at = none; missing_detection_reported = false }
    else entry

-- What `accept_data_packet` counts.
unfoldable pub count_packet : H264Reassembler → FrameAssembly → MediaPacket → ℕ → H264Reassembler
unfolding take_packet confirmed_missing_count
count_packet s entry packet now =
    let filled = slot_is_empty (get_elem? entry.packets packet.packet_index) in
    let cancelled =
      had_unrequested_gap entry
      && not (ltb 0 (confirmed_missing_count (take_packet entry packet now))) in
    record s {
      stats = record s.stats {
        reassembly_packets_active =
            if filled
            then inc s.stats.reassembly_packets_active
            else s.stats.reassembly_packets_active;
        reassembly_allocations_estimate =
            if filled
            then inc s.stats.reassembly_allocations_estimate
            else s.stats.reassembly_allocations_estimate;
        nack_requests_cancelled_by_progress =
            if cancelled
            then inc s.stats.nack_requests_cancelled_by_progress
            else s.stats.nack_requests_cancelled_by_progress;
      };
    }

abbrev pub accepted_packet : FrameAssembly → MediaPacket → ℕ → FrameAssembly
accepted_packet entry packet now =
    note_gap (take_packet entry packet now) (had_unrequested_gap entry) now

unfoldable pub reject_oversize : H264Reassembler → ℕ → H264Reassembler
reject_oversize s frame_id =
    expire_inflight_frame
      (record s {
        stats = record s.stats {
          reassembly_oversize_frames = bump s.stats.reassembly_oversize_frames;
          packets_invalid = bump s.stats.packets_invalid;
        };
      })
      frame_id

abbrev pub count_received : H264Reassembler → H264Reassembler
count_received s = record s {
  stats = record s.stats { packets_received = inc s.stats.packets_received };
}

abbrev pub other_session : Option ℕ → ℕ → Bool
other_session none id = false
other_session (some session_id) id = not (session_id == id)

abbrev pub or_first : Option ℕ → ℕ → Option ℕ
or_first none id = some id
or_first (some j) id = some j

abbrev pub max_of : Option ℕ → ℕ → Option ℕ
max_of none id = some id
max_of (some current) id = some (max current id)

-- The session, the statistics of FEC and the range of frame ids that a video packet updates.
unfoldable pub note_packet : H264Reassembler → MediaPacket → H264Reassembler
note_packet s packet =
    let is_fec = has_flag packet.flags flag_fec in
    let protected = not is_fec && has_flag packet.flags flag_fec_protected in
    record s {
      session_id = or_first s.session_id packet.session_id;
      next_frame = or_first s.next_frame packet.frame_id;
      highest_seen_frame = max_of s.highest_seen_frame packet.frame_id;
      stats = record s.stats {
        fec_packets_received =
            if is_fec then inc s.stats.fec_packets_received else s.stats.fec_packets_received;
        fec_protected_data_packets_received =
            if protected
            then inc s.stats.fec_protected_data_packets_received
            else s.stats.fec_protected_data_packets_received;
        next_decode_frame_id = or_first s.next_frame packet.frame_id;
      };
    }

abbrev pub is_before : ℕ → Option ℕ → Bool
is_before id none = false
is_before id (some next) = ltb id next
