-- ===== src/Tests/Frames.antt =====
-- The reassembler on a few datagrams.
use mathlib.Core.Option
use agora_link.Prelude.{ℕ, ◌≡◌, ◌≢◌, refl, List, [], ◌∷◌, some, none, ok, false, guarded, arith}
use agora_link.Map.{lookup, remove}
use agora_link.Tests.Codecs.{three_bytes, three_bytes_sent}
use agora_link.Reassembly.{
  H264Reassembler, EncodedFrame, FloatTiming, ReassemblyConfig, ReorderWait, new, new_with,
}
use agora_link.Reassembly.Arrival.{accept_packet}
use agora_link.Reassembly.Frames.{member}
use agora_link.Reassembly.Release.{
  take_ready, take_loop, turn, turn_at, wait_turn, first_key, expire, accept_datagram,
}
use agora_link.Reassembly.Release.Order.{GateFrom, Ascending, take_ready-Ascending}
use agora_link.Reassembly.Soundness.Stream.{IsSound, accept_packet-IsSound}
use agora_link.Reassembly.Soundness.Gate.{take_ready-Sound, expire-Sound}
use agora_link.Reassembly.Soundness.Datagram.{accept_datagram-Sound, new-IsSound}

-- Twenty milliseconds between frames, whatever the samples are.
abbrev pub steady : FloatTiming
steady = record {
  average_interval = λ o ms n. some 20;
  auto_wait = λ o. 50000000;
  duration_ms_rounded = λ d. 50;
}

abbrev pub small_config : ReassemblyConfig
small_config = record {
  frame_timeout = 1000000000;
  reorder_wait = ReorderWait.auto;
  max_inflight_frames = 4;
}

small_config-new : new steady small_config ≡ ok (new_with steady small_config)
unfolding new guarded
small_config-new = refl

new_one-IsSound : IsSound (new_with steady small_config)
new_one-IsSound = new-IsSound steady small_config (new_with steady small_config) small_config-new

accept_packet-IsSound_example :
    IsSound (accept_packet steady (new_with steady small_config) three_bytes 5)
accept_packet-IsSound_example =
    accept_packet-IsSound steady (new_with steady small_config) three_bytes 5 (omega arith)
      new_one-IsSound

accept_datagram-Sound_example :
    IsSound (accept_datagram steady (new_with steady small_config) three_bytes_sent 5).0
    × ((accept_datagram steady (new_with steady small_config) three_bytes_sent 5).1 ≢ ok none)
accept_datagram-Sound_example =
    accept_datagram-Sound steady (new_with steady small_config) three_bytes_sent 5 (ground arith)
      new_one-IsSound

abbrev one_arrived : H264Reassembler
one_arrived = (accept_datagram steady (new_with steady small_config) three_bytes_sent 5).0

one_arrived-IsSound : IsSound one_arrived
one_arrived-IsSound =
    (accept_datagram-Sound steady (new_with steady small_config) three_bytes_sent 5 (ground arith)
      new_one-IsSound).0

take_ready-Sound_example :
    (r : H264Reassembler × List EncodedFrame) × (take_ready steady one_arrived 9 false ≡ some r)
    × IsSound r.0
take_ready-Sound_example = take_ready-Sound steady one_arrived 9 false one_arrived-IsSound

expire-Sound_example :
    (r : H264Reassembler × List EncodedFrame) × (expire steady one_arrived 2000000000 ≡ some r)
    × IsSound r.0
expire-Sound_example = expire-Sound steady one_arrived 2000000000 one_arrived-IsSound

abbrev waiting_frame : ℕ → EncodedFrame
waiting_frame id = record { frame_id = id; flags = 0; timestamp_ms = 20; bytes = id ∷ [] }

-- Frames 6 and 5 wait, and 5 is next.
abbrev two_waiting : H264Reassembler
two_waiting = record (new_with steady small_config) {
  complete = (6, waiting_frame 6) ∷ (5, waiting_frame 5) ∷ [];
  next_frame = some 5;
  highest_seen_frame = some 6;
}

two_released :
    Option.map (λ r. r.1) (take_ready steady two_waiting 9 false)
    ≡ some (waiting_frame 5 ∷ waiting_frame 6 ∷ [])
unfolding take_ready take_loop turn turn_at wait_turn lookup remove member first_key new_with
two_released = refl

abbrev two_after : H264Reassembler
two_after = record two_waiting {
  complete = [];
  next_frame = some 7;
  stats = record two_waiting.stats { next_decode_frame_id = some 7 };
}

two_taken :
    take_ready steady two_waiting 9 false ≡ some (two_after, waiting_frame 5 ∷ waiting_frame 6 ∷ [])
unfolding take_ready take_loop turn turn_at wait_turn lookup remove member first_key new_with
two_taken = refl

take_ready-Ascending_example :
    Ascending 5 (waiting_frame 5 ∷ waiting_frame 6 ∷ []) × GateFrom 5 two_after
take_ready-Ascending_example =
    take_ready-Ascending steady two_waiting 9 false 5
      (two_after, waiting_frame 5 ∷ waiting_frame 6 ∷ []) (omega arith) two_taken
