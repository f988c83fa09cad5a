-- ===== src/Fec/Packets.antt =====
-- The datagrams of `packetize_frame`: their number, their size and what they decode to.
use agora_link.Prelude.{
  ℕ, suc, ◌+◌, ◌-◌, ◌^◌, ◌≤◌, ◌<◌, ◌≡◌, refl, sym, ap, List, [], ◌∷◌, ◌++◌, arith, length, Result,
  ok, err, guarded-passed, >>=-passed, ok-injective, All, append-nil, ltb_false→le,
}
use agora_link.Wire.Media.{
  MediaPacket, MediaError, encode_with_udp_payload_size, decode, header_len, max_video_packet_count,
  stream_video,
}
use agora_link.Wire.Media
use agora_link.Wire.Fec.{encode as encode_parity}
use agora_link.Wire.Media.RoundTrip.{length-encode}
use agora_link.Fec.{
  Frame, FecMode, off, single_xor, PacketizedFrame, data_payloads, data_packet, data_packets,
  from_media, from_fec, finish_packets, packetize_frame, packetize_with, data_payload_size,
  fec_packet, fec_parity,
}
use agora_link.Fec.Chunks.{chunk_count}

from_media-passed : {A : Type 0} (m : Result MediaError A) {a : A} → from_media m ≡ ok a → m ≡ ok a
from_media-passed (ok b) h = cc
from_media-passed (err e) h = cc

validate-passed :
    (udp : ℕ) {u : Unit} → Media.validate_udp_payload_size udp ≡ ok u → (576 ≤ udp) × (udp ≤ 1472)
unfolding Media.validate_udp_payload_size
validate-passed udp h = ground arith

-- One data packet encoded, and the others after it.
pub data_packets-cons :
    (f : Frame) (count udp i : ℕ) (c : List ℕ) (cs out : List (List ℕ))
    → data_packets f count udp i (c ∷ cs) ≡ ok out
    → (d : List ℕ) × (ds : List (List ℕ)) × (encode_with_udp_payload_size
          (data_packet f count i c)
          udp
        ≡ ok d)
      × (data_packets f count udp (i + 1) cs ≡ ok ds)
      × (out ≡ d ∷ ds)
unfolding data_packets
data_packets-cons f count udp i c cs out h =
    let (d, p, h1) =
      >>=-passed (from_media (encode_with_udp_payload_size (data_packet f count i c) udp)) _ h in
    let (ds, q, h2) = >>=-passed (data_packets f count udp (i + 1) cs) _ h1 in
    (d, ds, from_media-passed _ p, q, sym (ok-injective h2))

pub data_packets-fit :
    (f : Frame) (count udp i : ℕ) (cs out : List (List ℕ))
    → data_packets f count udp i cs ≡ ok out
    → All (λ d. length d ≤ udp) out × (length out ≡ length cs)
unfolding data_packets
data_packets-fit f count udp i [] out h = rw (← ok-injective h) (tt, refl)
data_packets-fit f count udp i (c ∷ cs) out h =
    let (d, ds, e, more, split) = data_packets-cons f count udp i c cs out h in
    let (fit, len) = data_packets-fit f count udp (i + 1) cs ds more in
    rw split (((length-encode _ udp d e).1, fit), ap suc len)

-- What a call that returns went through.
pub record Sent (f : Frame) (payload : List ℕ) (udp size : ℕ) (out : PacketizedFrame) : Type 0 where
  pub packets : List (List ℕ)
  pub few : chunk_count (length payload) size ≤ max_video_packet_count
  pub encoded :
      data_packets f
        (chunk_count (length payload) size)
        udp
        0
        (data_payloads payload size (chunk_count (length payload) size) 0)
      ≡ ok packets
  pub finished :
      finish_packets f
        (chunk_count (length payload) size)
        size
        udp
        (data_payloads payload size (chunk_count (length payload) size) 0)
        packets
        f.mode
      ≡ ok out

packetize_with-Sent :
    (f : Frame) (payload : List ℕ) (udp size : ℕ) (out : PacketizedFrame)
    → packetize_with f payload udp size ≡ ok out
    → Sent f payload udp size out
unfolding packetize_with
packetize_with-Sent f payload udp size out h =
    let count : ℕ = chunk_count (length payload) size in
    let (few, h1) = guarded-passed _ _ h in
    let (packets, e, h2) =
      >>=-passed (data_packets f count udp 0 (data_payloads payload size count 0)) _ h1 in
    record {
      packets = packets;
      few = ltb_false→le max_video_packet_count count few.0;
      encoded = e;
      finished = h2;
    }

-- The data payload size of each mode is positive.
data_payload_size-pos :
    (mode : FecMode) (udp size : ℕ)
    → 576 ≤ udp
    → udp ≤ 1472
    → data_payload_size mode (udp - header_len) ≡ ok size
    → (0 < size) × (size < 2 ^ 16)
data_payload_size-pos off udp size h k e = ground arith
data_payload_size-pos single_xor udp size h k e = ground arith

pub packetize_frame-Sent :
    (f : Frame) (payload : List ℕ) (udp : ℕ) (out : PacketizedFrame)
    → packetize_frame f payload udp ≡ ok out
    → (size : ℕ) × (0 < size) × (size < 2 ^ 16) × (udp ≤ 1472) × Sent f payload udp size out
unfolding packetize_frame
packetize_frame-Sent f payload udp out h =
    let (small, h1) = guarded-passed _ _ h in
    let (u, v, h2) = >>=-passed (from_media (Media.validate_udp_payload_size udp)) _ h1 in
    let (size, e, h3) = >>=-passed (data_payload_size f.mode (udp - header_len)) _ h2 in
    let (lo, hi) = validate-passed udp (from_media-passed _ v) in
    let (pos, short) = data_payload_size-pos f.mode udp size lo hi e in
    (size, pos, short, hi, packetize_with-Sent f payload udp size out h3)

-- The last packet is the parity packet, if there is one.
pub record Finished (count udp : ℕ) (packets : List (List ℕ)) (out : PacketizedFrame) : Type 0 where
  pub tail : List (List ℕ)
  pub all : out.packets ≡ packets ++ tail
  pub count_eq : out.data_packet_count ≡ count
  pub tail_count : length tail ≡ out.fec_packet_count
  pub tail_fits : All (λ d. length d ≤ udp) tail

pub finish_packets-Finished :
    (f : Frame) (count size udp : ℕ) (chunks packets : List (List ℕ)) (mode : FecMode)
    (out : PacketizedFrame)
    → finish_packets f count size udp chunks packets mode ≡ ok out
    → Finished count udp packets out
unfolding finish_packets
finish_packets-Finished f count size udp chunks packets off out h = rw (← ok-injective h) (record {
  tail = [];
  all = sym (append-nil packets);
  count_eq = refl;
  tail_count = refl;
  tail_fits = tt;
})
finish_packets-Finished f count size udp chunks packets single_xor out h =
    let (bytes, e, h1) = >>=-passed (from_fec (encode_parity (fec_parity chunks count size))) _ h in
    let (d, e1, h2) =
      >>=-passed (from_media (encode_with_udp_payload_size (fec_packet f count bytes) udp)) _ h1 in
    rw (← ok-injective h2) (record {
      tail = d ∷ [];
      all = refl;
      count_eq = refl;
      tail_count = refl;
      tail_fits = ((length-encode (fec_packet f count bytes) udp d (from_media-passed _ e1)).1, tt);
    })
