-- ===== src/Tests/Playback.antt =====
-- Repair requests, the playout, the audio clock and the callback gate on small inputs.
use agora_link.Prelude.{
  ℕ, ◌≡◌, ◌≤◌, ◌<◌, ◌-◌, refl, List, [], ◌∷◌, true, false, none, some, ok, arith,
}
use agora_link.Reassembly.{
  H264Reassembler, FrameAssembly, EncodedFrame, new_with, confirmed_missing_count,
}
use agora_link.Reassembly.Nacks.{collect_frame, collect_nack_items, query_of}
use agora_link.Reassembly.Nacks.Wanted.{AreWanted, collect_nack_items-IsWanted}
use agora_link.Tests.Frames.{steady, small_config}
use agora_link.Playout.{PlayoutBuffer, BufferedFrame, new_buffer, pop_due, bare_frames}
use agora_link.Playout.Release.{IsSplit, Operation, pushes, operate_all, pop_due-exact}
use agora_link.Audio.Timeline.{new_timeline}
use agora_link.Audio.Timeline.Master.{
  IsAnchored, happen_all, received, submitted, discontinuity, happen_all-IsAnchored,
}
use agora_link.Audio.Clock.{new_mapper, map_capture_timestamp}
use agora_link.Audio.Clock.Cadence.{map_all, map_capture_timestamp_mono}
use agora_link.Callbacks.{try_enter, stop_accepting, drop_lease, is_idle}
use agora_link.Callbacks.Shutdown.{
  Source, Reaches, first, next, enters, leaves, stops, waits, at_first, stopped, idle, leases_after,
  closing-alone,
}

-- A frame of three packets of which the second is missing.
abbrev one_missing : FrameAssembly
one_missing = record {
  packet_count = 3;
  reserved_payload_bytes = 30;
  packets = some (1 ∷ []) ∷ none ∷ some (3 ∷ []) ∷ [];
  received_count = 2;
  missing_count = 1;
  received_bytes = 2;
  first_seen = 0;
  last_packet_arrival_time = 0;
  last_progress_time = 0;
  highest_received_packet_index = 2;
  flags = 0;
  timestamp_ms = 0;
  fec_parity = none;
  fec_expected = false;
  fec_invalid = false;
  last_nack_at = none;
  nack_rounds = 0;
  nack_requested_at = none ∷ none ∷ none ∷ [];
  missing_first_detected_at = none;
  missing_detection_reported = false;
  first_nack_at = none;
}

abbrev gap_seen : H264Reassembler
gap_seen = record (new_with steady small_config) { inflight = (5, one_missing) ∷ [] }

-- The missing packet is asked for once, and not again ten milliseconds later.
asked_for :
    (collect_nack_items gap_seen 20000000 20000000 40000000 3 500000000 32).1
    ≡ record { frame_id = 5; packet_index = 1 } ∷ []
unfolding collect_nack_items collect_frame confirmed_missing_count new_with
asked_for = refl

not_again :
    (collect_nack_items
      (collect_nack_items gap_seen 20000000 20000000 40000000 3 500000000 32).0
      30000000
      20000000
      40000000
      3
      500000000
      32).1
    ≡ []
unfolding collect_nack_items collect_frame confirmed_missing_count new_with
not_again = refl

collect_nack_items-IsWanted_example :
    AreWanted
      (query_of gap_seen 20000000 20000000 40000000 3 500000000 32)
      gap_seen.inflight
      (collect_nack_items gap_seen 20000000 20000000 40000000 3 500000000 32).1
collect_nack_items-IsWanted_example =
    collect_nack_items-IsWanted gap_seen 20000000 20000000 40000000 3 500000000 32

abbrev at_time : ℕ → EncodedFrame
at_time ms = record { frame_id = ms; flags = 0; timestamp_ms = ms; bytes = [] }

abbrev hundred_ms : PlayoutBuffer
hundred_ms = record {
  delay = 100000000;
  frames = [];
  first_timestamp_ms = none;
  first_target_at = none;
  last_target_at = none;
  stats = record {
    buffer_peak_frames = 0;
    late_frames = 0;
    dropped_late_frames = 0;
    dropped_discontinuity_frames = 0;
    released_frames = 0;
  };
}

hundred_ms-new : new_buffer 100 ≡ ok hundred_ms
unfolding new_buffer
hundred_ms-new = refl

abbrev three_frames : List Operation
three_frames = pushes (at_time 0 ∷ at_time 16 ∷ []) 5 ∷ pushes (at_time 33 ∷ []) 40000000 ∷ []

pop_due-exact_example :
    (due : List BufferedFrame) × ((pop_due (operate_all hundred_ms three_frames) 120000000).1
      ≡ bare_frames due)
    × IsSplit
        (operate_all hundred_ms three_frames).frames
        120000000
        due
        (pop_due (operate_all hundred_ms three_frames) 120000000).0.frames
pop_due-exact_example = pop_due-exact 100 hundred_ms three_frames 120000000 hundred_ms-new

happen_all-IsAnchored_example : IsAnchored (
    happen_all
      (new_timeline 48000)
      (received 10 ∷ submitted 20000 960 480 ∷ discontinuity ∷ submitted 40000 960 480 ∷ []))
happen_all-IsAnchored_example =
    happen_all-IsAnchored 48000
      (received 10 ∷ submitted 20000 960 480 ∷ discontinuity ∷ submitted 40000 960 480 ∷ [])

second_used :
    (map_capture_timestamp
      (map_all (map_capture_timestamp (new_mapper (some 10000000)) 1000 5).0 ((900, 6) ∷ []))
      11000
      7).2
    ≡ true
unfolding map_capture_timestamp map_all
second_used = refl

first_used : (map_capture_timestamp (new_mapper (some 10000000)) 1000 5).2 ≡ true
unfolding map_capture_timestamp
first_used = refl

map_capture_timestamp_mono_example :
    (map_capture_timestamp (new_mapper (some 10000000)) 1000 5).1
    ≤ (map_capture_timestamp
        (map_all (map_capture_timestamp (new_mapper (some 10000000)) 1000 5).0 ((900, 6) ∷ []))
        11000
        7).1
map_capture_timestamp_mono_example =
    map_capture_timestamp_mono (new_mapper (some 10000000)) 10000000 1000 5 11000 7 ((900, 6) ∷ [])
      refl first_used second_used (omega arith)

-- A callback enters, the shutdown begins, the callback leaves, and the shutdown has waited for it.
abbrev entered : Source
entered = record at_first {
  barrier = (try_enter at_first.barrier).0;
  leases = leases_after (try_enter at_first.barrier).1 0;
}

abbrev stopping : Source
stopping = record entered { barrier = stop_accepting entered.barrier; progress = stopped }

abbrev emptied : Source
emptied = record stopping { barrier = drop_lease stopping.barrier; leases = stopping.leases - 1 }

abbrev waited : Source
waited = record emptied { progress = idle }

one_lease : 0 < stopping.leases
unfolding try_enter
one_lease = omega arith

no_lease : is_idle emptied.barrier ≡ true
unfolding try_enter stop_accepting drop_lease is_idle
no_lease = refl

waited-Reaches : Reaches waited
waited-Reaches =
    next (next (next (next first (enters (omega arith))) (stops refl)) (leaves one_lease))
      (waits refl no_lease)

closing-alone_example : (waited.leases ≡ 0) × ((try_enter waited.barrier).1 ≡ false)
closing-alone_example = closing-alone waited waited-Reaches tt
