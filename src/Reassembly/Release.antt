-- ===== src/Reassembly/Release.antt =====
-- The release of frames in order: `take_ready`, `expire`, `finish`, `accept_datagram` and
-- `frame_repair_deadline`.
pub mod Waiting
pub mod Order
pub mod Seen
pub mod Termination
use agora_link.Prelude.{
  ℕ, zero, suc, ◌+◌, ◌-◌, ◌/◌, ◌%◌, ◌^◌, min, max, Bool, true, false, not, ◌&&◌, ◌||◌, ltb, leb,
  ◌==◌, List, [], ◌∷◌, ◌++◌, Option, none, some, length, if◌then◌else◌, Result, ok, err,
}
use mathlib.Core.Option
use mathlib.Core.List.{map}
use agora_link.Map.{Map, lookup, remove, nat_eq}
use agora_link.Wire.Media.{MediaPacket, MediaError, decode}
use agora_link.Repair.{u64_max}
use agora_link.Reassembly.{H264Reassembler, FrameAssembly, EncodedFrame, FloatTiming, inc, plus}
use agora_link.Reassembly.Frames.{member, set_remove, expire_inflight_frame}
use agora_link.Reassembly.Completion.{current_reorder_wait}
use agora_link.Reassembly.Arrival.{accept_packet}
use agora_link.Reassembly.Intake.{count_invalid, or_now, is_some}

-- `BTreeMap::first_key_value`, the key.
unfoldable pub first_key : Map ℕ EncodedFrame → Option ℕ
first_key [] = none
first_key ((k, frame) ∷ m) = elim (first_key m) [ none ↦ some k | some j ↦ some (min k j) ]

abbrev pub exceeds : Option ℕ → ℕ → Bool
exceeds none next = false
exceeds (some k) next = ltb next k

abbrev pub later_frame_known : H264Reassembler → ℕ → Bool
later_frame_known s next = exceeds (first_key s.complete) next || exceeds s.highest_seen_frame next

-- `next.checked_add(1)` on a u64.
abbrev pub checked_next : ℕ → Option ℕ
checked_next next = if ltb next u64_max then some (next + 1) else none

-- `Duration::from_millis(10)`
abbrev pub repair_deadline_guard : ℕ
repair_deadline_guard = 10000000

abbrev window_or : Option ℕ → ℕ → ℕ
window_or none timeout = timeout
window_or (some window) timeout = window

-- An `Instant` of the platform does not overflow within the frame timeout.
unfoldable pub frame_repair_deadline : H264Reassembler → FrameAssembly → ℕ
frame_repair_deadline s frame =
    let repair_window =
      min (window_or s.repair_window s.config.frame_timeout) s.config.frame_timeout in
    frame.first_seen + (repair_window - min repair_deadline_guard (repair_window / 2))

-- The repair of the next frame may still arrive before its deadline.
abbrev pub repair_pending : H264Reassembler → ℕ → ℕ → Bool
repair_pending s next now = elim (lookup next s.inflight) [
  | none ↦ false
  | some frame ↦ is_some s.repair_window && ltb now (frame_repair_deadline s frame)
]

-- Moves the gate on to `next` once frame `next - 1` is released or given up.
abbrev pass_gate : H264Reassembler → Option ℕ → H264Reassembler
pass_gate s next = record s {
  next_frame = next;
  blocked_since = none;
  stats = record s.stats { next_decode_frame_id = next };
}

-- `inflight.keys().filter(|frame_id| *frame_id < skip_to)`
unfoldable pub keys_before : ℕ → Map ℕ FrameAssembly → List ℕ
keys_before limit [] = []
keys_before limit ((k, frame) ∷ m) =
    if ltb k limit then k ∷ keys_before limit m else keys_before limit m

unfoldable pub expire_all : H264Reassembler → List ℕ → H264Reassembler
expire_all s [] = s
expire_all s (k ∷ ks) = expire_all (expire_inflight_frame s k) ks

-- `skipped.range(next..skip_to).count()` and `skipped.retain(|frame_id| *frame_id >= skip_to)`
unfoldable count_range : ℕ → ℕ → List ℕ → ℕ
count_range lo hi [] = 0
count_range lo hi (k ∷ ks) =
    let rest = count_range lo hi ks in if leb lo k && ltb k hi then suc rest else rest

unfoldable pub retain_from : ℕ → List ℕ → List ℕ
retain_from limit [] = []
retain_from limit (k ∷ ks) = if leb limit k then k ∷ retain_from limit ks else retain_from limit ks

abbrev pub skip_target : Option ℕ → ℕ → ℕ
skip_target none next = min (next + 1) u64_max
skip_target (some k) next = k

-- The frames from `next` to `skip_to` are given up.
unfoldable pub count_gap : H264Reassembler → ℕ → ℕ → H264Reassembler
unfolding count_range
count_gap s next skip_to =
    let skipped_count = max (skip_to - next) 1 in
    let newly_missing = skipped_count - count_range next skip_to s.skipped in
    let with_fec =
      ltb 0 s.stats.fec_packets_received || ltb 0 s.stats.fec_protected_data_packets_received in
    record s {
      stats = record s.stats {
        frames_incomplete_expired = plus s.stats.frames_incomplete_expired newly_missing;
        packets_lost_estimate = plus s.stats.packets_lost_estimate newly_missing;
        frames_missing_after_fec = plus s.stats.frames_missing_after_fec newly_missing;
        frames_dropped_after_fec = plus s.stats.frames_dropped_after_fec newly_missing;
        fec_recovery_failed_no_parity =
            if with_fec
            then plus s.stats.fec_recovery_failed_no_parity newly_missing
            else s.stats.fec_recovery_failed_no_parity;
        frames_discarded_decode_gate = plus s.stats.frames_discarded_decode_gate skipped_count;
        last_damaged_frame_id = some (skip_to - 1);
      };
    }

abbrev pub count_gap_event : H264Reassembler → H264Reassembler
count_gap_event s = record s {
  stats = record s.stats { decode_gate_gap_events = inc s.stats.decode_gate_gap_events };
}

unfoldable pub skip_gap : H264Reassembler → ℕ → H264Reassembler
unfolding first_key keys_before expire_all count_gap retain_from
skip_gap s next =
    let skip_to = skip_target (first_key s.complete) next in
    let left =
      count_gap (expire_all (count_gap_event s) (keys_before skip_to s.inflight)) next skip_to in
    pass_gate (record left { skipped = retain_from skip_to left.skipped }) (some skip_to)

-- What one turn of the loop does: it stops, releases a frame, or goes on without one.
pub data Turn : Type 0 where
  stop : H264Reassembler → Turn
  release : H264Reassembler → EncodedFrame → Turn
  advance : H264Reassembler → Turn

abbrev pub value_or : Option ℕ → ℕ → ℕ
value_or none d = d
value_or (some n) d = n

-- What a turn comes to: `rest` is the loop from the state that it leaves.
abbrev pub proceed :
    (H264Reassembler → Option (H264Reassembler × List EncodedFrame))
    → Turn
    → Option (H264Reassembler × List EncodedFrame)
proceed rest (stop s) = some (s, [])
proceed rest (advance s) = rest s
proceed rest (release s frame) = Option.map (λ r. (r.0, frame ∷ r.1)) (rest s)

-- The frames that `accept_datagram` returns, and the state that it leaves.
abbrev pub deliver :
    H264Reassembler
    → Option (H264Reassembler × List EncodedFrame)
    → H264Reassembler × Result MediaError (Option (List EncodedFrame))
deliver s none = (s, ok none)
deliver s (some (s', frames)) = (s', ok (some frames))

module _ (float : FloatTiming) where
  -- The blocked gate: since when, and the wait that is reported.
  abbrev pub block_gate : H264Reassembler → ℕ → H264Reassembler
  block_gate s now = record s {
    blocked_since = or_now s.blocked_since now;
    stats = record s.stats {
      decode_gate_stalls =
          if is_some s.blocked_since
          then s.stats.decode_gate_stalls
          else inc s.stats.decode_gate_stalls;
      reorder_wait_ms = float.duration_ms_rounded (current_reorder_wait float s);
    };
  }

  abbrev pub blocked_at : Option ℕ → ℕ → ℕ
  blocked_at none now = now
  blocked_at (some t) now = t

  unfoldable pub wait_turn : H264Reassembler → ℕ → ℕ → Bool → Turn
  unfolding skip_gap frame_repair_deadline
  wait_turn s next now force =
      let blocked = block_gate s now in
      if not (later_frame_known s next)
      then stop (record s { blocked_since = none })
      else if not force && ltb (now - blocked_at s.blocked_since now) (current_reorder_wait float s)
      then stop blocked
      else if not force && repair_pending s next now
      then stop blocked
      else advance (skip_gap blocked next)

  unfoldable pub turn_at : H264Reassembler → ℕ → ℕ → Bool → Turn
  unfolding member set_remove wait_turn
  turn_at s next now force = elim (lookup next s.complete) [
    | some frame ↦
        release (pass_gate (record s { complete = remove next s.complete }) (checked_next next))
          frame
    | none ↦
        if member next s.skipped
        then advance
            (pass_gate (record s { skipped = set_remove next s.skipped }) (checked_next next))
        else wait_turn s next now force
  ]

  abbrev pub turn_from : H264Reassembler → Option ℕ → ℕ → Bool → Turn
  turn_from s none now force = stop s
  turn_from s (some next) now force = turn_at s next now force

  unfoldable pub turn : H264Reassembler → ℕ → Bool → Turn
  unfolding turn_at
  turn s now force = turn_from s s.next_frame now force

  -- The loop of `take_ready`: `none` when the fuel runs out.
  unfoldable pub take_loop :
      ℕ → H264Reassembler → ℕ → Bool → Option (H264Reassembler × List EncodedFrame)
  unfolding turn
  take_loop zero s now force = none
  take_loop (suc fuel) s now force = proceed (λ s'. take_loop fuel s' now force) (turn s now force)

  -- Turns enough to pass every frame id that was seen.
  unfoldable pub take_ready :
      H264Reassembler → ℕ → Bool → Option (H264Reassembler × List EncodedFrame)
  unfolding take_loop
  take_ready s now force =
      take_loop (suc (value_or s.highest_seen_frame 0 + 1 - value_or s.next_frame 0)) s now force

  -- `accept_datagram` once the datagram is decoded: an error leaves only two statistics changed.
  abbrev pub datagram_decoded :
      H264Reassembler
      → ℕ
      → Result MediaError MediaPacket
      → H264Reassembler × Result MediaError (Option (List EncodedFrame))
  datagram_decoded s now (err e) = (count_invalid s, err e)
  datagram_decoded s now (ok packet) =
      deliver (accept_packet float s packet now)
        (take_ready (accept_packet float s packet now) now false)

  abbrev pub count_bytes : H264Reassembler → List ℕ → H264Reassembler
  count_bytes s datagram = record s {
    stats = record s.stats { bytes_received = plus s.stats.bytes_received (length datagram) };
  }

  unfoldable pub accept_datagram :
      H264Reassembler
      → List ℕ
      → ℕ
      → H264Reassembler × Result MediaError (Option (List EncodedFrame))
  unfolding take_ready
  accept_datagram s datagram now = datagram_decoded (count_bytes s datagram) now (decode datagram)

  -- The frames that were first seen at least `frame_timeout` ago.
  unfoldable pub timed_out : ℕ → ℕ → Map ℕ FrameAssembly → List ℕ
  timed_out timeout now [] = []
  timed_out timeout now ((k, frame) ∷ m) =
      let rest = timed_out timeout now m in
      if leb timeout (now - frame.first_seen) then k ∷ rest else rest

  unfoldable pub expire : H264Reassembler → ℕ → Option (H264Reassembler × List EncodedFrame)
  unfolding timed_out take_ready
  expire s now =
      take_ready (expire_all s (timed_out s.config.frame_timeout now s.inflight)) now false

  -- `later` is the clock when the stream ends, plus the frame timeout.
  unfoldable pub finish : H264Reassembler → ℕ → Option (H264Reassembler × List EncodedFrame)
  unfolding take_ready
  finish s later = take_ready (expire_all s (map (λ e. e.0) s.inflight)) later true
