-- ===== src/Reassembly/Soundness/Stream.antt =====
-- The invariant of the reassembler through `accept_packet`, `take_ready` and `accept_datagram`.
use agora_link.Prelude.{
  ℕ, ◌≡◌, ◌≤◌, max, Bool, false, not, ◌==◌, List, [], ◌∷◌, Option, none, some, All, arith,
  Bool-cases, inl, inr, ltb_false→le,
}
use agora_link.Map.{Map, nat_eq}
use agora_link.Wire.Media.{MediaPacket, stream_video}
use agora_link.Fec.{flag_fec}
use agora_link.Repair.{u64_max}
use agora_link.Reassembly.{H264Reassembler, EncodedFrame, FloatTiming}
use agora_link.Reassembly.Arrival.{route_packet, accept_packet}
use agora_link.Reassembly.Intake.{
  has_flag, count_received, other_session, or_first, max_of, note_packet, is_before,
}
use agora_link.Reassembly.Release.{value_or, take_ready}
use agora_link.Reassembly.Release.Order.{GateAt}
use agora_link.Reassembly.Release.Termination.{take_ready-Ends}
use agora_link.Reassembly.Release.Seen.{SeenTo}
use agora_link.Reassembly.Soundness.{SoundTo, NotBefore}
use agora_link.Reassembly.Soundness.Packets.{accept_fec_packet-SoundTo, accept_data_packet-SoundTo}

-- The reassembler is sound: for the highest id that was seen, 0 where none was.
abbrev pub IsSound : H264Reassembler → Type 0
IsSound s = (h : ℕ) × SoundTo h s

All-mono :
    {A : Type 0} (P Q : A → Type 0) → ((a : A) → P a → Q a) → (xs : List A) → All P xs → All Q xs
All-mono P Q f [] h = tt
All-mono P Q f (a ∷ xs) h = (f a h.0, All-mono P Q f xs h.1)

GateAt-or_first :
    (o : Option ℕ) (id : ℕ) (m : Map ℕ EncodedFrame)
    → id ≤ u64_max
    → GateAt 0 o m
    → GateAt 0 (or_first o id) m
GateAt-or_first none id m le g = rw g (omega arith, le, tt)
GateAt-or_first (some n) id m le g = g

highest-max_of : (o : Option ℕ) (id h : ℕ) → value_or o 0 ≡ h → value_or (max_of o id) 0 ≡ max h id
highest-max_of none id h e = omega arith
highest-max_of (some k) id h e = omega arith

note_packet-SoundTo :
    (h : ℕ) (s : H264Reassembler) (packet : MediaPacket)
    → packet.frame_id ≤ u64_max
    → SoundTo h s
    → SoundTo (max h packet.frame_id) (note_packet s packet)
unfolding note_packet
note_packet-SoundTo h s packet le b =
    let top : ℕ = max h packet.frame_id in
    record {
      real = omega (arith, b.real);
      budget = b.budget;
      slotted = b.slotted;
      in_flight =
          All-mono (λ e. e.0 ≤ h) (λ e. e.0 ≤ top) (λ e k. omega arith) s.inflight b.in_flight;
      waiting = All-mono (λ e. e.0 ≤ h) (λ e. e.0 ≤ top) (λ e k. omega arith) s.complete b.waiting;
      skips = All-mono (λ k. k ≤ h) (λ k. k ≤ top) (λ k e. omega arith) s.skipped b.skips;
      gate = GateAt-or_first s.next_frame packet.frame_id s.complete le b.gate;
      highest_eq = highest-max_of s.highest_seen_frame packet.frame_id h b.highest_eq;
    }

NotBefore-or_first :
    (o : Option ℕ) (id : ℕ) → is_before id (or_first o id) ≡ false → NotBefore id (or_first o id)
NotBefore-or_first none id e = omega arith
NotBefore-or_first (some n) id e = ltb_false→le id n e

module _ (float : FloatTiming) (s : H264Reassembler) (packet : MediaPacket) (now : ℕ) where
  route_packet-SoundTo :
      (h : ℕ)
      → packet.frame_id ≤ h
      → (is_before packet.frame_id s.next_frame ≡ false → NotBefore packet.frame_id s.next_frame)
      → SoundTo h s
      → SoundTo h (route_packet float s packet now)
  unfolding route_packet
  route_packet-SoundTo h le after b = elim (Bool-cases (is_before packet.frame_id s.next_frame)) [
    | inl p ↦ rw (route_packet, p) b
    | inr p ↦ elim (Bool-cases (has_flag packet.flags flag_fec)) [
      | inl q ↦
          rw (route_packet, p, q) (accept_fec_packet-SoundTo float h packet now s le (after p) b)
      | inr q ↦
          rw (route_packet, p, q) (accept_data_packet-SoundTo float h packet now s le (after p) b)
    ]
  ]

module _ (float : FloatTiming) (s : H264Reassembler) (packet : MediaPacket) (now : ℕ) where
  noted-IsSound :
      packet.frame_id ≤ u64_max
      → IsSound s
      → IsSound (route_packet float (note_packet s packet) packet now)
  unfolding note_packet
  noted-IsSound le (h, b) = (
    max h packet.frame_id,
    route_packet-SoundTo float (note_packet s packet) packet now (max h packet.frame_id)
        (omega arith) (NotBefore-or_first s.next_frame packet.frame_id)
        (note_packet-SoundTo h s packet le b),
  )

-- A packet whose frame id is a u64 keeps a sound reassembler sound, whatever the packet holds: what
-- is reserved for the frames in flight is what they hold and stays within the limits, the counts of
-- each frame are those of its slots, and no waiting frame is before the gate.
pub accept_packet-IsSound :
    (float : FloatTiming) (s : H264Reassembler) (packet : MediaPacket) (now : ℕ)
    → packet.frame_id ≤ u64_max
    → IsSound s
    → IsSound (accept_packet float s packet now)
unfolding accept_packet
accept_packet-IsSound float s packet now le (h, b) =
    elim (Bool-cases (not (packet.stream_id == stream_video))) [
      | inl p ↦ rw (accept_packet, p) (h, b)
      | inr p ↦ elim (Bool-cases (other_session s.session_id packet.session_id)) [
        | inl q ↦ rw (accept_packet, p, q) (h, b)
        | inr q ↦
            rw (accept_packet, p, q) (noted-IsSound float (count_received s) packet now le (h, b))
      ]
    ]

SeenTo-SoundTo : (h : ℕ) (s : H264Reassembler) → SoundTo h s → SeenTo h s
SeenTo-SoundTo h s b = record {
  highest = b.highest_eq;
  in_flight = b.in_flight;
  waiting = b.waiting;
  skipped = b.skips;
}

-- From a sound reassembler, the loop that releases frames always ends.
pub take_ready-Ends_sound :
    (float : FloatTiming) (s : H264Reassembler) (now : ℕ) (force : Bool)
    → IsSound s
    → (r : H264Reassembler × List EncodedFrame) × (take_ready float s now force ≡ some r)
take_ready-Ends_sound float s now force (h, b) =
    take_ready-Ends float s h now force 0 b.real (SeenTo-SoundTo h s b) b.gate
