-- ===== src/Wire/Media/RoundTrip.antt =====
-- What decoding makes of an encoded AGM1 packet, and what an encoded packet may hold.
use agora_link.Prelude.{
  ℕ, ◌+◌, ◌%◌, ◌^◌, ◌≤◌, ◌<◌, ◌≡◌, refl, ap, ◌∙◌, List, ◌++◌, arith, length, length-append, take,
  take-append, ok, true, list_eq, get_or, guarded, append_assoc,
}
use agora_link.Bytes.{to_be_bytes, from_be_bytes, from_be_bytes-to_be_bytes, slice}
use agora_link.Wire.Media.{
  MediaPacket, IsWellTyped, header, header_len, read_fields, encode_with_udp_payload_size, decode,
  max_video_packet_count, max_udp_payload_size, magic,
}

-- The packets and payload limits that `encode_with_udp_payload_size` accepts.
pub record IsEncodable (p : MediaPacket) (size : ℕ) : Type 0 where
  pub size_min : 576 ≤ size
  pub size_max : size ≤ 1472
  pub payload_fits : header_len + length p.payload ≤ size
  pub count_pos : 0 < p.packet_count
  pub count_max : p.packet_count ≤ max_video_packet_count
  pub index_lt : p.packet_index < p.packet_count

pub encode_of_IsEncodable :
    (p : MediaPacket) (size : ℕ)
    → IsEncodable p size
    → encode_with_udp_payload_size p size ≡ ok (header p (length p.payload) ++ p.payload)
unfolding encode_with_udp_payload_size guarded
encode_of_IsEncodable p size h = ground arith

IsEncodable-of_encode :
    (p : MediaPacket) (size : ℕ) (bytes : List ℕ)
    → encode_with_udp_payload_size p size ≡ ok bytes
    → IsEncodable p size × (bytes ≡ header p (length p.payload) ++ p.payload)
unfolding encode_with_udp_payload_size guarded
IsEncodable-of_encode p size bytes h = ground arith

length-header :
    (p : MediaPacket) (n : ℕ) (rest : List ℕ) → length (header p n ++ rest) ≡ 38 + length rest
unfolding header to_be_bytes
length-header p n rest = omega arith

module _ (p : MediaPacket) (typed : IsWellTyped p) (n : ℕ) (small : n < 65536) (rest : List ℕ) where
  read-header : read_fields (header p n ++ rest) n ≡ record p { payload = take n rest }
  unfolding read_fields header to_be_bytes
  read-header = λ i. record {
    stream_id = p.stream_id;
    flags = from_be_bytes-to_be_bytes 2 p.flags typed.flags_u16 i;
    session_id = from_be_bytes-to_be_bytes 8 p.session_id typed.session_id_u64 i;
    frame_id = from_be_bytes-to_be_bytes 8 p.frame_id typed.frame_id_u64 i;
    packet_index = from_be_bytes-to_be_bytes 2 p.packet_index typed.packet_index_u16 i;
    packet_count = from_be_bytes-to_be_bytes 2 p.packet_count typed.packet_count_u16 i;
    timestamp_ms = from_be_bytes-to_be_bytes 8 p.timestamp_ms typed.timestamp_ms_u64 i;
    payload = take n rest;
  }

  read-len : from_be_bytes (slice (header p n ++ rest) 36 2) ≡ n
  unfolding header to_be_bytes
  read-len = from_be_bytes-to_be_bytes 2 (n % 2 ^ 16) (omega arith) ∙ omega arith

  magic-header :
      (list_eq (slice (header p n ++ rest) 0 4) magic ≡ true)
      × (get_or (header p n ++ rest) 4 0 ≡ 1)
  unfolding header to_be_bytes
  magic-header = (refl, refl)

-- The decoder reads back a packet that it is handed behind its header, and ignores what follows.
decode-header :
    (p : MediaPacket) (rest : List ℕ)
    → IsWellTyped p
    → IsEncodable p 1472
    → header_len + length p.payload + length rest ≤ 1472
    → decode (header p (length p.payload) ++ (p.payload ++ rest)) ≡ ok p
unfolding decode guarded
decode-header p rest typed fits small = ground (
  arith,
  magic-header p typed n (omega arith) tail,
  length-header p n tail,
  read-len p typed n (omega arith) tail,
  read-header p typed n (omega arith) tail,
  take-append n p.payload rest refl,
  length-append p.payload rest,
)
  where
    n : ℕ
    n = length p.payload

    tail : List ℕ
    tail = p.payload ++ rest

widen : {p : MediaPacket} {size : ℕ} → IsEncodable p size → IsEncodable p 1472
widen fits = omega arith

-- Decoding an encoded packet gives the packet back, whatever bytes follow it in the datagram, for
-- every field within its Rust type and every datagram within the UDP payload limit.
pub decode-encode :
    (p : MediaPacket) (size : ℕ) (bytes rest : List ℕ)
    → IsWellTyped p
    → encode_with_udp_payload_size p size ≡ ok bytes
    → length bytes + length rest ≤ max_udp_payload_size
    → decode (bytes ++ rest) ≡ ok p
decode-encode p size bytes rest typed e small =
    let (fits, written) = IsEncodable-of_encode p size bytes e in
    rw (written, append_assoc)
      (decode-header p rest typed (widen fits)
        (omega (arith, ap length written, length-header p (length p.payload) p.payload)))

-- An encoded datagram is the 38 header bytes and the payload, and stays within the UDP payload size
-- that was asked for.
pub length-encode :
    (p : MediaPacket) (size : ℕ) (bytes : List ℕ)
    → encode_with_udp_payload_size p size ≡ ok bytes
    → (length bytes ≡ header_len + length p.payload) × (length bytes ≤ size)
length-encode p size bytes e =
    let (fits, written) = IsEncodable-of_encode p size bytes e in
    omega (arith, ap length written, length-header p (length p.payload) p.payload)
