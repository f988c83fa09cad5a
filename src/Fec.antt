-- ===== src/Fec.antt =====
-- Single-XOR forward error correction: `packetize_frame` of fec.rs and `recover_missing_payload` of
-- h264_reassembly.rs (rust-native/agoralink_media/src).
mod Xor
pub mod Recovery
pub mod Chunks
pub mod Packets
pub mod Delivery
use Prim.Native.Nat.{bit_xor, bit_or}
use agora_link.Prelude.{
  ℕ, zero, suc, ◌+◌, ◌-◌, ◌*◌, ◌/◌, ◌%◌, ◌^◌, ◌<◌, min, max, List, [], ◌∷◌, ◌++◌, Option, none,
  some, length, get_or, not, ◌&&◌, ◌||◌, ltb, leb, ◌==◌, Bool, true, false, if◌then◌else◌, Result,
  ok, err, ◌>>=◌, ◌>>◌, guarded, take, drop, replicate,
}
use agora_link.Wire.Media.{
  MediaPacket, MediaError, header_len, max_video_frame_bytes, max_video_packet_count, div_ceil,
  stream_video, validate_udp_payload_size, encode_with_udp_payload_size,
}
use agora_link.Wire.Fec.{
  encode as encode_parity, FecParity, FecError, fec_metadata_len, expected_payload_len,
}

pub data FecMode : Type 0 where
  off single_xor : FecMode

abbrev pub flag_end_of_frame : ℕ
flag_end_of_frame = 2

abbrev pub flag_fec : ℕ
flag_fec = 16

abbrev pub flag_fec_protected : ℕ
flag_fec_protected = 32

pub data PacketizeError : Type 0 where
  frame_bytes_limit too_small_for_fec too_many_packets : PacketizeError
  media : MediaError → PacketizeError
  fec : FecError → PacketizeError

-- `?` on the errors of the codecs.
abbrev from_media : {A : Type 0} → Result MediaError A → Result PacketizeError A
from_media (ok a) = ok a
from_media (err e) = err (media e)

abbrev from_fec : {A : Type 0} → Result FecError A → Result PacketizeError A
from_fec (ok a) = ok a
from_fec (err e) = err (fec e)

-- `payload.get(start..end).unwrap_or_default()`
abbrev pub get_range : List ℕ → ℕ → ℕ → List ℕ
get_range payload start end_ =
    if leb start end_ && leb end_ (length payload)
    then take (end_ - start) (drop start payload)
    else []

abbrev pub chunk_at : List ℕ → ℕ → ℕ → List ℕ
chunk_at payload size i = get_range payload (i * size) (min (i * size + size) (length payload))

-- `data_payloads` after the loop: the chunks from index `i` on, `n` of them.
unfoldable pub data_payloads : List ℕ → ℕ → ℕ → ℕ → List (List ℕ)
data_payloads payload size zero i = []
data_payloads payload size (suc n) i =
    chunk_at payload size i ∷ data_payloads payload size n (i + 1)

-- `for (index, byte) in chunk.iter().enumerate() { parity[index] ^= byte }`. An index past the end
-- is a panic in the source; the loop's callers keep chunks within the parity.
unfoldable pub xor_into : List ℕ → List ℕ → List ℕ
xor_into [] bs = []
xor_into (p ∷ ps) [] = p ∷ ps
xor_into (p ∷ ps) (b ∷ bs) = bit_xor p b ∷ xor_into ps bs

unfoldable pub xor_all : List ℕ → List (List ℕ) → List ℕ
unfolding xor_into
xor_all parity [] = parity
xor_all parity (chunk ∷ chunks) = xor_all (xor_into parity chunk) chunks

-- `data_payloads.iter().map(|chunk| chunk.len()).max().unwrap_or(0)`
unfoldable pub max_len : List (List ℕ) → ℕ
max_len [] = 0
max_len (c ∷ cs) = max (length c) (max_len cs)

-- `data_payloads.last().map_or(0, |chunk| chunk.len())`
unfoldable pub last_len : List (List ℕ) → ℕ
last_len [] = 0
last_len (c ∷ []) = length c
last_len (c ∷ d ∷ cs) = last_len (d ∷ cs)

unfoldable pub fec_parity : List (List ℕ) → ℕ → ℕ → FecParity
unfolding xor_all max_len last_len
fec_parity chunks count size = record {
  data_packet_count = count % 2 ^ 16;
  data_payload_size = size % 2 ^ 16;
  last_data_payload_len = last_len chunks % 2 ^ 16;
  parity = xor_all (replicate (max_len chunks) 0) chunks;
}

-- The arguments of `packetize_frame` that every packet carries.
pub record Frame : Type 0 where
  pub session_id : ℕ
  pub frame_id : ℕ
  pub timestamp_ms : ℕ
  pub frame_flags : ℕ
  pub mode : FecMode

abbrev pub protected_flag : FecMode → ℕ
protected_flag off = 0
protected_flag single_xor = flag_fec_protected

-- The packet of data chunk `i`, of `count`.
unfoldable pub data_packet : Frame → ℕ → ℕ → List ℕ → MediaPacket
data_packet f count i chunk = record {
  stream_id = stream_video;
  flags =
      bit_or (bit_or (if i == 0 then f.frame_flags else 0) (protected_flag f.mode))
        (if i + 1 == count then flag_end_of_frame else 0);
  session_id = f.session_id;
  frame_id = f.frame_id;
  packet_index = i % 2 ^ 16;
  packet_count = count % 2 ^ 16;
  timestamp_ms = f.timestamp_ms;
  payload = chunk;
}

unfoldable pub data_packets :
    Frame → ℕ → ℕ → ℕ → List (List ℕ) → Result PacketizeError (List (List ℕ))
unfolding data_packet
data_packets f count udp i [] = ok []
data_packets f count udp i (chunk ∷ chunks) = do
  datagram ← from_media (encode_with_udp_payload_size (data_packet f count i chunk) udp)
  rest ← data_packets f count udp (i + 1) chunks
  ok (datagram ∷ rest)

unfoldable pub fec_packet : Frame → ℕ → List ℕ → MediaPacket
fec_packet f count fec_payload = record {
  stream_id = stream_video;
  flags = bit_or flag_fec f.frame_flags;
  session_id = f.session_id;
  frame_id = f.frame_id;
  packet_index = 0;
  packet_count = count % 2 ^ 16;
  timestamp_ms = f.timestamp_ms;
  payload = fec_payload;
}

pub record PacketizedFrame : Type 0 where
  pub packets : List (List ℕ)
  pub data_packet_count : ℕ
  pub fec_packet_count : ℕ
  pub fec_bytes : ℕ

-- What the mode appends to the data packets.
unfoldable pub finish_packets :
    Frame
    → ℕ
    → ℕ
    → ℕ
    → List (List ℕ)
    → List (List ℕ)
    → FecMode
    → Result PacketizeError PacketizedFrame
unfolding fec_parity fec_packet
finish_packets f count size udp chunks packets off =
    ok
      (record { packets = packets; data_packet_count = count; fec_packet_count = 0; fec_bytes = 0 })
finish_packets f count size udp chunks packets single_xor = do
  fec_payload ← from_fec (encode_parity (fec_parity chunks count size))
  datagram ← from_media (encode_with_udp_payload_size (fec_packet f count fec_payload) udp)
  ok (record {
    packets = packets ++ datagram ∷ [];
    data_packet_count = count;
    fec_packet_count = 1;
    fec_bytes = length datagram;
  })

abbrev pub data_payload_size : FecMode → ℕ → Result PacketizeError ℕ
data_payload_size off media_payload_size = ok media_payload_size
data_payload_size single_xor media_payload_size =
    if ltb media_payload_size fec_metadata_len
    then err too_small_for_fec
    else ok (media_payload_size - fec_metadata_len)

-- `packetize_frame` once the data payload size is known.
unfoldable pub packetize_with : Frame → List ℕ → ℕ → ℕ → Result PacketizeError PacketizedFrame
packetize_with f payload udp_payload_size size =
    let count = max (div_ceil (length payload) size) 1 in
    let chunks = data_payloads payload size count 0 in
    guarded ((ltb max_video_packet_count count, too_many_packets) ∷ []) do
      packets ← data_packets f count udp_payload_size 0 chunks
      finish_packets f count size udp_payload_size chunks packets f.mode

unfoldable pub packetize_frame : Frame → List ℕ → ℕ → Result PacketizeError PacketizedFrame
packetize_frame f payload udp_payload_size =
    guarded ((ltb max_video_frame_bytes (length payload), frame_bytes_limit) ∷ []) do
      from_media (validate_udp_payload_size udp_payload_size)
      size ← data_payload_size f.mode (udp_payload_size - header_len)
      packetize_with f payload udp_payload_size size

-- The loop of `recover_missing_payload` from packet index `i` on.
unfoldable pub recover_loop :
    FecParity → ℕ → ℕ → List (Option (List ℕ)) → List ℕ → Result FecError (List ℕ)
unfolding xor_into
recover_loop p missing i [] recovered = ok recovered
recover_loop p missing i (none ∷ packets) recovered =
    let rest = recover_loop p missing (i + 1) packets recovered in
    if i == missing then rest else err FecError.not_one_missing
recover_loop p missing i (some payload ∷ packets) recovered =
    let rest = recover_loop p missing (i + 1) packets (xor_into recovered payload) in
    do
      expected ← expected_payload_len p i
      guarded
          ((
            not (length payload == expected) || ltb (length recovered) (length payload),
            FecError.length_mismatch,
          )
            ∷ [])
          rest

unfoldable pub recover_missing_payload :
    List (Option (List ℕ)) → FecParity → ℕ → Result FecError (List ℕ)
unfolding recover_loop
recover_missing_payload packets p missing =
    guarded ((not (length packets == p.data_packet_count), FecError.count_mismatch) ∷ []) do
      expected ← expected_payload_len p missing
      guarded ((ltb (length p.parity) expected, FecError.parity_too_short) ∷ [])
          do recovered ← recover_loop p missing 0 packets p.parity; ok (take expected recovered)
