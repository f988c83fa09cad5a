-- ===== src/Fec/Delivery.antt =====
-- What a receiver reads in the data packets of a packetized frame.
use agora_link.Prelude.{
  ℕ, zero, suc, ◌+◌, ◌-◌, ◌^◌, ◌≤◌, ◌<◌, ◌≡◌, refl, ap, ap₂, ◌∙◌, List, [], ◌∷◌, ◌++◌, arith,
  length, take, take-append, ok, All, append-nil, ok-injective, Bool, Bool-cases, inl, inr, leb,
  ◌&&◌, drop, if◌then◌else◌, ◌==◌,
}
use mathlib.Core.List.{map, flatten}
use agora_link.Bits.{bit_or-lt}
use agora_link.Bytes.{IsByte, All-take, All-drop}
use agora_link.Wire.Media.{MediaPacket, IsWellTyped, decode}
use agora_link.Wire.Media.RoundTrip.{length-encode, decode-encode}
use agora_link.Fec.{
  Frame, FecMode, off, single_xor, PacketizedFrame, data_payloads, get_range, data_packet,
  data_packets, packetize_frame, protected_flag, flag_end_of_frame,
}
use agora_link.Fec.Chunks.{chunk_count, flatten-data_payloads, length-data_payloads}
use agora_link.Fec.Packets.{
  data_packets-cons, data_packets-fit, Finished, packetize_frame-Sent, finish_packets-Finished,
}

-- The packets that the chunks from index `i` on go out in.
sent_packets : Frame → ℕ → ℕ → List (List ℕ) → List MediaPacket
sent_packets f count i [] = []
sent_packets f count i (c ∷ cs) = data_packet f count i c ∷ sent_packets f count (i + 1) cs

-- The ranges of the Rust argument types.
pub record FrameIsTyped (f : Frame) : Type 0 where
  pub session_id_u64 : f.session_id < 256 ^ 8
  pub frame_id_u64 : f.frame_id < 256 ^ 8
  pub timestamp_ms_u64 : f.timestamp_ms < 256 ^ 8
  pub frame_flags_u16 : f.frame_flags < 256 ^ 2

flag_if : (b : Bool) (x : ℕ) → x < 2 ^ 16 → (if b then x else 0) < 2 ^ 16
flag_if b x h = ground arith

mode_flag-lt : (mode : FecMode) → protected_flag mode < 2 ^ 16
mode_flag-lt off = omega arith
mode_flag-lt single_xor = omega arith

data_packet-IsWellTyped :
    (f : Frame) (count i : ℕ) (c : List ℕ)
    → FrameIsTyped f
    → All IsByte c
    → IsWellTyped (data_packet f count i c)
unfolding data_packet
data_packet-IsWellTyped f count i c t h = record {
  stream_id_u8 = omega arith;
  flags_u16 =
      bit_or-lt 16 _ _
        (bit_or-lt 16 _ _ (flag_if (i == 0) f.frame_flags t.frame_flags_u16) (mode_flag-lt f.mode))
        (flag_if (i + 1 == count) flag_end_of_frame (omega arith));
  session_id_u64 = t.session_id_u64;
  frame_id_u64 = t.frame_id_u64;
  packet_index_u16 = omega arith;
  packet_count_u16 = omega arith;
  timestamp_ms_u64 = t.timestamp_ms_u64;
  payload_bytes = h;
}

data_packets-decode :
    (f : Frame) (count udp i : ℕ) (cs out : List (List ℕ))
    → FrameIsTyped f
    → All (All IsByte) cs
    → udp ≤ 1472
    → data_packets f count udp i cs ≡ ok out
    → map decode out ≡ map ok (sent_packets f count i cs)
unfolding data_packets sent_packets
data_packets-decode f count udp i [] out t h k e = rw (← ok-injective e)
data_packets-decode f count udp i (c ∷ cs) out t h k e =
    let (d, ds, one, more, split) = data_packets-cons f count udp i c cs out e in
    let alone : d ++ [] ≡ d = append-nil d in
    rw split (
      ap₂ ◌∷◌
        (rw alone at (
          decode-encode (data_packet f count i c) udp d []
            (data_packet-IsWellTyped f count i c t h.0) one
            (omega (arith, length-encode (data_packet f count i c) udp d one))))
        (data_packets-decode f count udp (i + 1) cs ds t h.1 k more))

payloads-sent :
    (f : Frame) (count i : ℕ) (cs : List (List ℕ))
    → map (λ p. p.payload) (sent_packets f count i cs) ≡ cs
unfolding sent_packets data_packet
payloads-sent f count i [] = refl
payloads-sent f count i (c ∷ cs) = ap (λ l. c ∷ l) (payloads-sent f count (i + 1) cs)

-- What the receiver needs of each packet to put it in its frame.
abbrev pub InFrame : Frame → ℕ → MediaPacket → Type 0
InFrame f count p =
    (p.session_id ≡ f.session_id)
    × (p.frame_id ≡ f.frame_id)
    × (p.timestamp_ms ≡ f.timestamp_ms)
    × (p.packet_count ≡ count)

sent_packets-InFrame :
    (f : Frame) (count i : ℕ) (cs : List (List ℕ))
    → count < 65536
    → All (InFrame f count) (sent_packets f count i cs)
unfolding sent_packets data_packet
sent_packets-InFrame f count i [] h = tt
sent_packets-InFrame f count i (c ∷ cs) h =
    ((refl, refl, refl, omega arith), sent_packets-InFrame f count (i + 1) cs h)

-- The index of each packet is its place.
abbrev pub Numbered : ℕ → List MediaPacket → Type 0
Numbered i [] = Unit
Numbered i (p ∷ ps) = (p.packet_index ≡ i) × Numbered (i + 1) ps

sent_packets-Numbered :
    (f : Frame) (count i : ℕ) (cs : List (List ℕ))
    → i + length cs ≤ count
    → count < 65536
    → Numbered i (sent_packets f count i cs)
unfolding sent_packets data_packet
sent_packets-Numbered f count i [] h k = tt
sent_packets-Numbered f count i (c ∷ cs) h k =
    (omega arith, sent_packets-Numbered f count (i + 1) cs (omega arith) k)

range-IsByte :
    (payload : List ℕ) (a b : ℕ) → All IsByte payload → All IsByte (get_range payload a b)
range-IsByte payload a b h = elim (Bool-cases (leb a b && leb b (length payload))) [
  | inl e ↦ rw e (All-take IsByte (b - a) (drop a payload) (All-drop IsByte a payload h))
  | inr e ↦ rw e tt
]

chunks-IsByte :
    (payload : List ℕ) (size n i : ℕ)
    → All IsByte payload
    → All (All IsByte) (data_payloads payload size n i)
unfolding data_payloads
chunks-IsByte payload size zero i h = tt
chunks-IsByte payload size (suc n) i h =
    (range-IsByte payload _ _ h, chunks-IsByte payload size n (i + 1) h)

-- The data datagrams of a packetized frame decode to packets of that frame, numbered from 0, whose
-- payloads joined in order are the payload that was packetized: for every frame whose fields are
-- within their Rust types, every byte payload and either mode.
pub packetize_frame-delivers :
    (f : Frame) (payload : List ℕ) (udp : ℕ) (out : PacketizedFrame)
    → FrameIsTyped f
    → All IsByte payload
    → packetize_frame f payload udp ≡ ok out
    → (ps : List MediaPacket) × (map decode (take out.data_packet_count out.packets) ≡ map ok ps)
      × (flatten (map (λ p. p.payload) ps) ≡ payload)
      × All (InFrame f out.data_packet_count) ps
      × Numbered 0 ps
packetize_frame-delivers f payload udp out typed bytes h =
    let (size, pos, short, hi, sent) = packetize_frame-Sent f payload udp out h in
    let count : ℕ = chunk_count (length payload) size in
    let cs : List (List ℕ) = data_payloads payload size count 0 in
    let fin : Finished count udp sent.packets out =
      finish_packets-Finished f count size udp cs sent.packets f.mode out sent.finished in
    let (fit, len) = data_packets-fit f count udp 0 cs sent.packets sent.encoded in
    let n : length cs ≡ count = length-data_payloads payload size count 0 in
    (
      sent_packets f count 0 cs,
      rw (fin.all, fin.count_eq, take-append count sent.packets fin.tail (len ∙ n))
          (data_packets-decode f count udp 0 cs sent.packets typed
            (chunks-IsByte payload size count 0 bytes) hi sent.encoded),
      rw (payloads-sent f count 0 cs) (flatten-data_payloads payload size pos),
      rw fin.count_eq (sent_packets-InFrame f count 0 cs (omega (arith, sent.few))),
      sent_packets-Numbered f count 0 cs (omega (arith, n)) (omega (arith, sent.few)),
    )
