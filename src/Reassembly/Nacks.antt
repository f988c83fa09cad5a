-- ===== src/Reassembly/Nacks.antt =====
-- `collect_nack_items`: which missing packets the receiver asks for again. The hash map of the frames in
-- flight is gone through in the order of the list that stands for it. The timing metrics, which are
-- floating point numbers, are left out.
pub mod Missing
pub mod Wanted
use agora_link.Prelude.{
  ℕ, ◌+◌, ◌-◌, ◌/◌, ◌%◌, ◌^◌, min, max, List, [], ◌∷◌, ◌++◌, get_or, set, Bool, true, false, not,
  ◌&&◌, ◌||◌, leb, ltb, ◌==◌, if◌then◌else◌, Option, none, some,
}
use agora_link.Map.{Map, lookup, nat_eq}
use agora_link.Wire.Nack.{PacketKey}
use agora_link.Reassembly.{
  H264Reassembler, FrameAssembly, EncodedFrame, confirmed_missing_count, inc,
}
use agora_link.Reassembly.Release.{frame_repair_deadline, repair_deadline_guard}
use agora_link.Reassembly.Requests.{
  nack_playout_deadline_guard, nack_confirmed_gap_debounce, NackCollectionStats,
  no_collection_stats, NackQuery, Collected, asked_within, is_above, is_unset, Scan, ask_missing,
  scan_packets, end_scan, request_frame,
}

abbrev pub note_detection : Bool → NackQuery → FrameAssembly → FrameAssembly
note_detection false q frame = frame
note_detection true q frame = record frame {
  missing_first_detected_at = some q.now;
  missing_detection_reported = false;
}

-- The report of a gap, once; a gap that is found with little time left is counted as late.
abbrev pub report_detection :
    Option ℕ → ℕ → FrameAssembly → NackCollectionStats → FrameAssembly × NackCollectionStats
report_detection none deadline frame t = (frame, t)
report_detection (some detected_at) deadline frame t =
    if frame.missing_detection_reported then (frame, t) else (
      record frame { missing_detection_reported = true },
      if leb (deadline - (detected_at - frame.first_seen)) nack_playout_deadline_guard
          then record t { candidates_late_discovery = inc t.candidates_late_discovery }
          else t,
    )

abbrev pub count_first_round : FrameAssembly → NackCollectionStats → NackCollectionStats
count_first_round frame t =
    if frame.nack_rounds == 0
    then record t { candidates_first_round = inc t.candidates_first_round }
    else t

abbrev pub unchanged : FrameAssembly → NackCollectionStats → Collected
unchanged frame t = record { frame = frame; items = []; stats = t }

-- The gap is noted and reported before the frame is asked for.
abbrev pub request_noted :
    NackQuery → ℕ → ℕ → Bool → FrameAssembly → NackCollectionStats → Collected
request_noted q deadline frame_id detects frame t =
    let noted = note_detection detects q frame in
    let reported = report_detection noted.missing_first_detected_at deadline noted t in
    request_frame q frame_id reported.0 (count_first_round reported.0 reported.1)

abbrev pub age_of_frame : NackQuery → FrameAssembly → ℕ
age_of_frame q frame = q.now - frame.first_seen

abbrev is_stalled : NackQuery → FrameAssembly → Bool
is_stalled q frame = leb q.delay (q.now - frame.last_progress_time)

abbrev is_near : NackQuery → ℕ → FrameAssembly → Bool
is_near q deadline frame = leb (deadline - age_of_frame q frame) nack_playout_deadline_guard

-- A packet is missing before one that arrived, or the last one arrived.
abbrev has_confirmed_gap : FrameAssembly → Bool
has_confirmed_gap frame =
    ltb 0 (confirmed_missing_count frame)
    || min (frame.highest_received_packet_index + 1) (2 ^ 16 - 1) == frame.packet_count

-- The frame may still be arriving.
abbrev pub is_progressing : NackQuery → ℕ → ℕ → FrameAssembly → Bool
is_progressing q deadline frame_id frame =
    let evidence =
      has_confirmed_gap frame
      || is_above q.highest_seen_frame frame_id
      || is_above q.highest_complete_frame frame_id in
    let gap_ready =
      evidence
      && leb (min q.delay nack_confirmed_gap_debounce) (q.now - frame.last_progress_time) in
    not (is_stalled q frame) && not gap_ready && not (is_near q deadline frame)

abbrev pub detects_gap : NackQuery → ℕ → ℕ → FrameAssembly → Bool
detects_gap q deadline frame_id frame =
    is_unset frame.missing_first_detected_at
    && (has_confirmed_gap frame
        || is_stalled q frame
        || is_above q.highest_seen_frame frame_id
        || is_near q deadline frame)

abbrev pub count_suppressed : NackQuery → FrameAssembly → NackCollectionStats → NackCollectionStats
count_suppressed q frame t =
    if ltb (age_of_frame q frame) q.delay
    then record t { suppressed_too_early = inc t.suppressed_too_early }
    else record t { suppressed_progressing_frames = inc t.suppressed_progressing_frames }

-- A frame that misses packets, with the age at which its repair ends.
abbrev pub collect_candidate : NackQuery → ℕ → ℕ → FrameAssembly → NackCollectionStats → Collected
collect_candidate q deadline frame_id frame t =
    if leb deadline (age_of_frame q frame)
    then unchanged frame t
    else if is_progressing q deadline frame_id frame
    then unchanged frame (count_suppressed q frame t)
    else request_noted q deadline frame_id (detects_gap q deadline frame_id frame) frame t

-- The body of the loop over the frames in flight.
unfoldable pub collect_frame : NackQuery → ℕ → ℕ → FrameAssembly → NackCollectionStats → Collected
collect_frame q deadline frame_id frame t =
    if frame.missing_count == 0 || leb q.max_rounds frame.nack_rounds
    then unchanged frame t
    else collect_candidate q deadline frame_id frame
        (record t { candidate_frames = inc t.candidate_frames })

abbrev pub collect_loop :
    NackQuery
    → ℕ
    → Map ℕ FrameAssembly
    → NackCollectionStats
    → Map ℕ FrameAssembly × List PacketKey × NackCollectionStats
collect_loop q deadline [] t = ([], [], t)
collect_loop q deadline ((frame_id, frame) ∷ frames) t =
    let collected = collect_frame q deadline frame_id frame t in
    let rest = collect_loop q deadline frames collected.stats in
    ((frame_id, collected.frame) ∷ rest.0, collected.items ++ rest.1, rest.2)

abbrev higher : ℕ → Option ℕ → ℕ
higher key none = key
higher key (some other) = max key other

abbrev highest_key : Map ℕ EncodedFrame → Option ℕ
highest_key [] = none
highest_key ((key, frame) ∷ frames) = some (higher key (highest_key frames))

-- The age at which the repair of a frame ends: ten milliseconds, or half the window, before its end.
abbrev pub nack_deadline : ℕ → ℕ → ℕ
nack_deadline frame_timeout repair_window =
    let window = min frame_timeout repair_window in window - min repair_deadline_guard (window / 2)

abbrev pub query_of : H264Reassembler → ℕ → ℕ → ℕ → ℕ → ℕ → ℕ → NackQuery
query_of s now delay repeat max_rounds repair_window max_items_per_frame = record {
  now = now;
  delay = delay;
  repeat = repeat;
  max_rounds = max_rounds;
  repair_window = repair_window;
  max_items_per_frame = max max_items_per_frame 1;
  highest_complete_frame = highest_key s.complete;
  highest_seen_frame = s.highest_seen_frame;
}

unfoldable pub collect_nack_items :
    H264Reassembler → ℕ → ℕ → ℕ → ℕ → ℕ → ℕ → H264Reassembler × List PacketKey × NackCollectionStats
collect_nack_items s now delay repeat max_rounds repair_window max_items_per_frame =
    let q = query_of s now delay repeat max_rounds repair_window max_items_per_frame in
    let collected =
      collect_loop q (nack_deadline s.config.frame_timeout repair_window) s.inflight
        no_collection_stats in
    (record s { inflight = collected.0 }, collected.1, collected.2)

-- `filter(|window| !window.is_zero())`
abbrev nonzero_window : Option ℕ → Option ℕ
nonzero_window none = none
nonzero_window (some window) = if window == 0 then none else some window

unfoldable set_repair_window : H264Reassembler → Option ℕ → H264Reassembler
set_repair_window s window = record s { repair_window = nonzero_window window }

abbrev remaining_of : Option FrameAssembly → H264Reassembler → ℕ → Option ℕ
remaining_of none s now = none
remaining_of (some frame) s now = some (frame_repair_deadline s frame - now)

unfoldable repair_deadline_remaining : H264Reassembler → ℕ → ℕ → Option ℕ
repair_deadline_remaining s frame_id now = remaining_of (lookup frame_id s.inflight) s now
