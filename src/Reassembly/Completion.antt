-- ===== src/Reassembly/Completion.antt =====
-- Completing a frame: `try_complete_frame`, `finish_complete_frame`, `observe_frame_timing` and
-- `current_reorder_wait`.
use Prim.Native.Nat.{bit_and}
use agora_link.Prelude.{
  ℕ, ◌+◌, ◌-◌, ◌%◌, ◌^◌, Bool, true, false, ◌&&◌, ltb, ◌==◌, List, [], ◌∷◌, ◌++◌, Option, none,
  some, length, set, if◌then◌else◌, Result, ok, err,
}
use agora_link.Map.{lookup, insert, nat_eq}
use agora_link.Wire.Fec.{FecParity, FecError}
use agora_link.Fec.{flag_fec, flag_fec_protected, recover_missing_payload}
use agora_link.Reassembly.{
  H264Reassembler, FrameAssembly, EncodedFrame, auto, fixed, FloatTiming, inc,
}
use agora_link.Reassembly.Frames.{remove_inflight_frame}

-- `frame.packets.into_iter().flatten()`, joined.
unfoldable pub joined : List (Option (List ℕ)) → List ℕ
joined [] = []
joined (none ∷ packets) = joined packets
joined (some payload ∷ packets) = payload ++ joined packets

-- `packets.iter().position(Option::is_none)`, from index `i` on.
unfoldable pub position_none : List (Option (List ℕ)) → ℕ → Option ℕ
position_none [] i = none
position_none (none ∷ packets) i = some i
position_none (some payload ∷ packets) i = position_none packets (i + 1)

-- `flags & !(FLAG_FEC | FLAG_FEC_PROTECTED)` on a u16.
abbrev without_fec_flags : ℕ → ℕ
without_fec_flags flags = bit_and flags (2 ^ 16 - 1 - (flag_fec + flag_fec_protected))

abbrev pub encoded_frame : ℕ → FrameAssembly → EncodedFrame
encoded_frame frame_id frame = record {
  frame_id = frame_id;
  flags = without_fec_flags frame.flags;
  timestamp_ms = frame.timestamp_ms;
  bytes = joined frame.packets;
}

-- The loss of one data packet that the parity makes good.
unfoldable pub put_recovered : FrameAssembly → ℕ → List ℕ → FrameAssembly
put_recovered frame missing_index payload = record frame {
  received_bytes = frame.received_bytes + length payload;
  packets = set frame.packets missing_index (some payload);
  received_count = (frame.received_count + 1) % 2 ^ 16;
  missing_count = 0;
  nack_requested_at = set frame.nack_requested_at missing_index none;
}

unfoldable pub give_up_parity : FrameAssembly → FrameAssembly
give_up_parity frame = record frame { fec_parity = none; fec_invalid = true }

-- The frame after the attempt, with what `recover_missing_payload` answered.
pub data Attempt : Type 0 where
  not_tried : Attempt
  nothing_missing : Attempt
  recovered : FrameAssembly → Attempt
  failed : FrameAssembly → Attempt

abbrev pub attempt_result : FrameAssembly → ℕ → Result FecError (List ℕ) → Attempt
attempt_result frame missing_index (ok payload) =
    recovered (put_recovered frame missing_index payload)
attempt_result frame missing_index (err e) = failed (give_up_parity frame)

abbrev pub attempt_with : FrameAssembly → FecParity → Option ℕ → Attempt
attempt_with frame parity none = nothing_missing
attempt_with frame parity (some missing_index) =
    attempt_result frame missing_index (recover_missing_payload frame.packets parity missing_index)

abbrev pub attempt_parity : FrameAssembly → Option FecParity → Attempt
attempt_parity frame none = not_tried
attempt_parity frame (some parity) = attempt_with frame parity (position_none frame.packets 0)

unfoldable pub attempt_recovery : FrameAssembly → Attempt
unfolding position_none
attempt_recovery frame =
    if frame.missing_count == 1 then attempt_parity frame frame.fec_parity else not_tried

unfoldable pub put_frame : H264Reassembler → ℕ → FrameAssembly → H264Reassembler
put_frame s frame_id frame = record s { inflight = insert frame_id frame s.inflight }

unfoldable pub apply_attempt : H264Reassembler → ℕ → Attempt → H264Reassembler
unfolding put_frame
apply_attempt s frame_id not_tried = s
apply_attempt s frame_id nothing_missing = record s {
  stats = record s.stats {
    reassembly_complete_scan_count = inc s.stats.reassembly_complete_scan_count;
  };
}
apply_attempt s frame_id (recovered frame) = record (put_frame s frame_id frame) {
  stats = record s.stats {
    reassembly_complete_scan_count = inc s.stats.reassembly_complete_scan_count;
    reassembly_packets_active = inc s.stats.reassembly_packets_active;
    reassembly_allocations_estimate = inc s.stats.reassembly_allocations_estimate;
    fec_frames_recovered = inc s.stats.fec_frames_recovered;
    fec_packets_recovered = inc s.stats.fec_packets_recovered;
  };
}
apply_attempt s frame_id (failed frame) = record (put_frame s frame_id frame) {
  stats = record s.stats {
    reassembly_complete_scan_count = inc s.stats.reassembly_complete_scan_count;
    fec_recovery_failed_invalid = inc s.stats.fec_recovery_failed_invalid;
  };
}

module _ (float : FloatTiming) where
  abbrev pub current_reorder_wait : H264Reassembler → ℕ
  current_reorder_wait s = elim s.config.reorder_wait [
    | fixed wait ↦ wait
    | auto ↦ float.auto_wait s.observed_frame_interval_ms
  ]

  -- The sample of the frame interval, where there is an earlier frame to measure from.
  abbrev pub sample_timing : H264Reassembler → Option (ℕ × ℕ) → ℕ → ℕ → H264Reassembler
  sample_timing s none frame_id timestamp_ms = record s {
    last_timing_frame = some (frame_id, timestamp_ms);
  }
  sample_timing s (some (previous_id, previous_ms)) frame_id timestamp_ms =
      if ltb previous_id frame_id && ltb previous_ms timestamp_ms
      then record s {
        observed_frame_interval_ms =
            float.average_interval s.observed_frame_interval_ms (timestamp_ms - previous_ms)
              (frame_id - previous_id);
        last_timing_frame = some (frame_id, timestamp_ms);
      }
      else s

  unfoldable pub observe_frame_timing : H264Reassembler → ℕ → ℕ → H264Reassembler
  observe_frame_timing s frame_id timestamp_ms =
      let s' = sample_timing s s.last_timing_frame frame_id timestamp_ms in
      record s' {
        stats = record s'.stats {
          reorder_wait_ms = float.duration_ms_rounded (current_reorder_wait s');
        };
      }

  unfoldable pub store_complete : H264Reassembler → ℕ → FrameAssembly → H264Reassembler
  unfolding observe_frame_timing joined
  store_complete s frame_id frame =
      observe_frame_timing
        (record s {
          complete = insert frame_id (encoded_frame frame_id frame) s.complete;
          stats = record s.stats {
            reassembly_allocations_estimate = inc s.stats.reassembly_allocations_estimate;
            frames_complete = inc s.stats.frames_complete;
            last_frame_id = some frame_id;
          };
        })
        frame_id frame.timestamp_ms

  -- `finish_complete_frame` with what `remove_inflight_frame` returned.
  unfoldable pub complete_removed : ℕ → H264Reassembler × Option FrameAssembly → H264Reassembler
  unfolding store_complete
  complete_removed frame_id (s, none) = s
  complete_removed frame_id (s, some frame) = store_complete s frame_id frame

  unfoldable pub finish_complete_frame : H264Reassembler → ℕ → H264Reassembler
  unfolding complete_removed
  finish_complete_frame s frame_id = complete_removed frame_id (remove_inflight_frame s frame_id)

  -- `self.inflight.get(&frame_id).is_some_and(|frame| frame.missing_count == 0)`
  abbrev pub is_complete : Option FrameAssembly → Bool
  is_complete none = false
  is_complete (some frame) = frame.missing_count == 0

  abbrev pub attempt_of : Option FrameAssembly → Attempt
  attempt_of none = not_tried
  attempt_of (some frame) = attempt_recovery frame

  unfoldable pub complete_if_full : H264Reassembler → ℕ → H264Reassembler
  unfolding finish_complete_frame
  complete_if_full s frame_id =
      if is_complete (lookup frame_id s.inflight) then finish_complete_frame s frame_id else s

  unfoldable pub try_complete_frame : H264Reassembler → ℕ → H264Reassembler
  unfolding apply_attempt attempt_recovery complete_if_full
  try_complete_frame s frame_id =
      complete_if_full (apply_attempt s frame_id (attempt_of (lookup frame_id s.inflight))) frame_id
