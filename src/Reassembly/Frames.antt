-- ===== src/Reassembly/Frames.antt =====
-- The in-flight frames of the reassembler and their budget: `frame_payload_reservation`,
-- `ensure_inflight_frame`, `reject_new_frame_for_budget`, `remove_inflight_frame`,
-- `expire_inflight_frame` and `switch_session`.
pub mod Cases
pub mod Budget
use agora_link.Prelude.{
  ℕ, ◌+◌, ◌-◌, ◌*◌, ◌^◌, min, Bool, true, false, not, ◌&&◌, ◌||◌, ltb, leb, ◌==◌, List, [], ◌∷◌,
  Option, none, some, length, if◌then◌else◌, Result, ok, err,
}
use agora_link.Map.{Map, lookup, insert, remove, contains_key, nat_eq}
use agora_link.Wire.Media.{max_video_packet_count, max_media_payload, max_video_frame_bytes}
use agora_link.Wire.Fec.{FecParity}
use agora_link.Repair.{bump}
use agora_link.Reassembly.{
  H264Reassembler, FrameAssembly, ReassemblyStats, new_assembly, inc, plus,
  max_inflight_packet_slots, max_inflight_payload_bytes, max_inflight_frames_limit,
}

unfoldable pub frame_payload_reservation : ℕ → Option ℕ
frame_payload_reservation packet_count =
    if packet_count == 0 || ltb max_video_packet_count packet_count
    then none
    else some (min (packet_count * max_media_payload) max_video_frame_bytes + max_media_payload)

-- `BTreeSet::insert` and `BTreeSet::contains`; the set is a list without repetitions.
unfoldable pub member : ℕ → List ℕ → Bool
member k [] = false
member k (j ∷ ks) = if j == k then true else member k ks

unfoldable pub set_insert : ℕ → List ℕ → List ℕ
unfolding member
set_insert k ks = if member k ks then ks else k ∷ ks

unfoldable pub set_remove : ℕ → List ℕ → List ℕ
set_remove k [] = []
set_remove k (j ∷ ks) = if j == k then set_remove k ks else j ∷ set_remove k ks

unfoldable pub reject_new_frame_for_budget : H264Reassembler → ℕ → ℕ → H264Reassembler
unfolding set_insert
reject_new_frame_for_budget s frame_id packet_count = record s {
  stats = record s.stats {
    packets_invalid = bump s.stats.packets_invalid;
    reassembly_budget_rejected_frames = bump s.stats.reassembly_budget_rejected_frames;
    frames_incomplete_expired = bump s.stats.frames_incomplete_expired;
    frames_missing_after_fec = bump s.stats.frames_missing_after_fec;
    frames_dropped_after_fec = bump s.stats.frames_dropped_after_fec;
    packets_lost_estimate = min (s.stats.packets_lost_estimate + packet_count) (2 ^ 64 - 1);
    last_damaged_frame_id = some frame_id;
  };
  skipped = set_insert frame_id s.skipped;
}

abbrev parity_packets : Option FecParity → ℕ
parity_packets none = 0
parity_packets (some p) = 1

-- `remove_inflight_frame` once the frame is found.
unfoldable pub release_frame : H264Reassembler → ℕ → FrameAssembly → H264Reassembler
release_frame s frame_id frame =
    let slots = s.inflight_packet_slots - frame.packet_count in
    let bytes = s.inflight_payload_bytes - frame.reserved_payload_bytes in
    record s {
      inflight = remove frame_id s.inflight;
      inflight_packet_slots = slots;
      inflight_payload_bytes = bytes;
      stats = record s.stats {
        reassembly_frames_active = s.stats.reassembly_frames_active - 1;
        reassembly_packets_active =
            s.stats.reassembly_packets_active
            - (frame.received_count + parity_packets frame.fec_parity);
        reassembly_packet_slots_reserved = slots;
        reassembly_payload_bytes_reserved = bytes;
      };
    }

unfoldable pub remove_inflight_frame : H264Reassembler → ℕ → H264Reassembler × Option FrameAssembly
unfolding release_frame
remove_inflight_frame s frame_id = elim (lookup frame_id s.inflight) [
  | none ↦ (s, none)
  | some frame ↦ (release_frame s frame_id frame, some frame)
]

abbrev has_parity : FrameAssembly → Bool
has_parity f = parity_packets f.fec_parity == 1

-- What `expire_inflight_frame` counts for a frame.
unfoldable count_expired : ReassemblyStats → ℕ → FrameAssembly → ReassemblyStats
count_expired st frame_id frame =
    let st' = record st {
      frames_incomplete_expired = inc st.frames_incomplete_expired;
      packets_lost_estimate = plus st.packets_lost_estimate frame.missing_count;
      frames_missing_after_fec = inc st.frames_missing_after_fec;
      frames_dropped_after_fec = inc st.frames_dropped_after_fec;
      last_damaged_frame_id = some frame_id;
    } in
    if frame.fec_invalid
    then st'
    else if has_parity frame && ltb 1 frame.missing_count
    then record st' { fec_recovery_failed_multi_missing = inc st.fec_recovery_failed_multi_missing }
    else if not (has_parity frame) && frame.fec_expected
    then record st' { fec_recovery_failed_no_parity = inc st.fec_recovery_failed_no_parity }
    else st'

unfoldable pub skip_frame : H264Reassembler → ℕ → FrameAssembly → H264Reassembler
unfolding count_expired set_insert
skip_frame s frame_id frame = record s {
  stats = count_expired s.stats frame_id frame;
  skipped = set_insert frame_id s.skipped;
}

-- `expire_inflight_frame` with what `remove_inflight_frame` returned.
unfoldable pub skip_removed : ℕ → H264Reassembler × Option FrameAssembly → H264Reassembler
unfolding skip_frame
skip_removed frame_id (s, none) = s
skip_removed frame_id (s, some frame) = skip_frame s frame_id frame

unfoldable pub expire_inflight_frame : H264Reassembler → ℕ → H264Reassembler
unfolding remove_inflight_frame skip_removed
expire_inflight_frame s frame_id = skip_removed frame_id (remove_inflight_frame s frame_id)

-- The tests on the budget; `checked_add` on a usize never fails within the budget.
unfoldable pub fits_budget : H264Reassembler → ℕ → ℕ → Bool
fits_budget s packet_slots reserved =
    not (leb (min s.config.max_inflight_frames max_inflight_frames_limit) (length s.inflight))
    && leb (s.inflight_packet_slots + packet_slots) max_inflight_packet_slots
    && leb (s.inflight_payload_bytes + reserved) max_inflight_payload_bytes

unfoldable pub reserve_frame : H264Reassembler → ℕ → ℕ → ℕ → ℕ → ℕ → Bool → H264Reassembler
unfolding new_assembly
reserve_frame s frame_id packet_count reserved now timestamp_ms fec_expected =
    let slots = s.inflight_packet_slots + packet_count in
    let bytes = s.inflight_payload_bytes + reserved in
    record s {
      inflight_packet_slots = slots;
      inflight_payload_bytes = bytes;
      stats = record s.stats {
        reassembly_frames_active = bump s.stats.reassembly_frames_active;
        reassembly_packet_slots_reserved = slots;
        reassembly_payload_bytes_reserved = bytes;
        reassembly_allocations_estimate = bump s.stats.reassembly_allocations_estimate;
      };
      inflight =
          insert frame_id (new_assembly packet_count reserved now timestamp_ms fec_expected)
            s.inflight;
    }

unfoldable pub ensure_inflight_frame :
    H264Reassembler → ℕ → ℕ → ℕ → ℕ → Bool → H264Reassembler × Bool
unfolding frame_payload_reservation reject_new_frame_for_budget fits_budget reserve_frame
ensure_inflight_frame s frame_id packet_count now timestamp_ms fec_expected =
    let refused : H264Reassembler × Bool =
      (reject_new_frame_for_budget s frame_id packet_count, false) in
    if contains_key frame_id s.inflight
    then (s, true)
    else elim (frame_payload_reservation packet_count) [
      | none ↦ refused
      | some reserved ↦
          if fits_budget s packet_count reserved
          then (reserve_frame s frame_id packet_count reserved now timestamp_ms fec_expected, true)
          else refused
    ]

data SwitchError : Type 0 where
  zero_session : SwitchError

unfoldable switch_session : H264Reassembler → ℕ → Result SwitchError H264Reassembler
switch_session s session_id =
    if session_id == 0
    then err zero_session
    else ok (record s {
      session_id = some session_id;
      inflight = [];
      complete = [];
      skipped = [];
      next_frame = none;
      highest_seen_frame = none;
      blocked_since = none;
      last_timing_frame = none;
      observed_frame_interval_ms = none;
      inflight_packet_slots = 0;
      inflight_payload_bytes = 0;
      stats = record s.stats {
        next_decode_frame_id = none;
        reassembly_frames_active = 0;
        reassembly_packets_active = 0;
        reassembly_packet_slots_reserved = 0;
        reassembly_payload_bytes_reserved = 0;
      };
    })
