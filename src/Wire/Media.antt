-- ===== src/Wire/Media.antt =====
-- AGM1 media packets: `MediaPacket` of rust-native/agoralink_media/src/main.rs, with its limits.
pub mod RoundTrip
pub mod Canonical
use agora_link.Prelude.{
  ℕ, ◌+◌, ◌-◌, ◌*◌, ◌/◌, ◌%◌, ◌^◌, ◌<◌, List, [], ◌∷◌, ◌++◌, length, get_or, list_eq, not, ◌&&◌,
  ltb, leb, ◌==◌, if◌then◌else◌, Result, Bool, ok, err, ◌>>=◌, ◌>>◌, guarded, All,
}
use agora_link.Bytes.{IsByte, to_be_bytes, from_be_bytes, slice}

abbrev pub magic : List ℕ
magic = b'A' ∷ b'G' ∷ b'M' ∷ b'1' ∷ []

abbrev pub version : ℕ
version = 1

abbrev pub header_len : ℕ
header_len = 38

abbrev min_udp_payload_size : ℕ
min_udp_payload_size = 576

abbrev legacy_udp_payload_size : ℕ
legacy_udp_payload_size = 1200

abbrev pub max_udp_payload_size : ℕ
max_udp_payload_size = 1472

abbrev pub max_media_payload : ℕ
max_media_payload = max_udp_payload_size - header_len

abbrev min_media_payload : ℕ
min_media_payload = min_udp_payload_size - header_len

abbrev pub legacy_media_payload : ℕ
legacy_media_payload = legacy_udp_payload_size - header_len

abbrev pub max_video_frame_bytes : ℕ
max_video_frame_bytes = 16 * 1024 * 1024

-- `usize::div_ceil`
abbrev pub div_ceil : ℕ → ℕ → ℕ
div_ceil a b = (a + b - 1) / b

abbrev pub max_video_packet_count : ℕ
max_video_packet_count = div_ceil max_video_frame_bytes min_media_payload + 1 + 4

abbrev pub stream_video : ℕ
stream_video = 1

pub record MediaPacket : Type 0 where
  pub stream_id : ℕ
  pub flags : ℕ
  pub session_id : ℕ
  pub frame_id : ℕ
  pub packet_index : ℕ
  pub packet_count : ℕ
  pub timestamp_ms : ℕ
  pub payload : List ℕ

-- The ranges of the Rust field types.
pub record IsWellTyped (p : MediaPacket) : Type 0 where
  pub stream_id_u8 : p.stream_id < 256
  pub flags_u16 : p.flags < 256 ^ 2
  pub session_id_u64 : p.session_id < 256 ^ 8
  pub frame_id_u64 : p.frame_id < 256 ^ 8
  pub packet_index_u16 : p.packet_index < 256 ^ 2
  pub packet_count_u16 : p.packet_count < 256 ^ 2
  pub timestamp_ms_u64 : p.timestamp_ms < 256 ^ 8
  pub payload_bytes : All IsByte p.payload

pub data MediaError : Type 0 where
  bad_udp_payload_size payload_too_large payload_exceeds_u16 zero_packet_count packet_count_limit :
      MediaError
  index_out_of_range datagram_too_large packet_too_short bad_magic payload_len_limit : MediaError
  payload_len_exceeds_datagram : MediaError
  unsupported_version : ℕ → MediaError

unfoldable pub validate_udp_payload_size : ℕ → Result MediaError Unit
validate_udp_payload_size value =
    if leb min_udp_payload_size value && leb value max_udp_payload_size
    then ok tt
    else err bad_udp_payload_size

-- The bytes that `encode_with_udp_payload_size` writes, with the payload length `len`.
unfoldable pub header : MediaPacket → ℕ → List ℕ
header p len =
    magic
    ++ version ∷ p.stream_id ∷ to_be_bytes 2 p.flags
    ++ to_be_bytes 8 p.session_id
    ++ to_be_bytes 8 p.frame_id
    ++ to_be_bytes 2 p.packet_index
    ++ to_be_bytes 2 p.packet_count
    ++ to_be_bytes 8 p.timestamp_ms
    ++ to_be_bytes 2 (len % 2 ^ 16)

unfoldable pub encode_with_udp_payload_size : MediaPacket → ℕ → Result MediaError (List ℕ)
unfolding validate_udp_payload_size
encode_with_udp_payload_size p udp_payload_size = do
  validate_udp_payload_size udp_payload_size
  guarded
      ((ltb (udp_payload_size - header_len) (length p.payload), payload_too_large)
        ∷ (ltb (2 ^ 16 - 1) (length p.payload), payload_exceeds_u16)
        ∷ (p.packet_count == 0, zero_packet_count)
        ∷ (ltb max_video_packet_count p.packet_count, packet_count_limit)
        ∷ (leb p.packet_count p.packet_index, index_out_of_range)
        ∷ [])
      (ok (header p (length p.payload) ++ p.payload))

unfoldable pub encode : MediaPacket → Result MediaError (List ℕ)
unfolding encode_with_udp_payload_size
encode p = encode_with_udp_payload_size p legacy_udp_payload_size

-- The fields that `decode` reads, at their offsets.
unfoldable pub read_fields : List ℕ → ℕ → MediaPacket
read_fields buf payload_len = record {
  stream_id = get_or buf 5 0;
  flags = from_be_bytes (slice buf 6 2);
  session_id = from_be_bytes (slice buf 8 8);
  frame_id = from_be_bytes (slice buf 16 8);
  packet_index = from_be_bytes (slice buf 24 2);
  packet_count = from_be_bytes (slice buf 26 2);
  timestamp_ms = from_be_bytes (slice buf 28 8);
  payload = slice buf header_len payload_len;
}

-- The early returns of `decode` before it reads a field, and after.
abbrev pub header_tests : List ℕ → List (Bool × MediaError)
header_tests buf =
    (ltb max_udp_payload_size (length buf), datagram_too_large)
    ∷ (ltb (length buf) header_len, packet_too_short)
    ∷ (not (list_eq (slice buf 0 4) magic), bad_magic)
    ∷ (not (get_or buf 4 0 == version), unsupported_version (get_or buf 4 0))
    ∷ []

abbrev pub field_tests : MediaPacket → ℕ → ℕ → List (Bool × MediaError)
field_tests packet payload_len buf_len =
    (packet.packet_count == 0, zero_packet_count)
    ∷ (ltb max_video_packet_count packet.packet_count, packet_count_limit)
    ∷ (leb packet.packet_count packet.packet_index, index_out_of_range)
    ∷ (ltb max_media_payload payload_len, payload_len_limit)
    ∷ (ltb buf_len (header_len + payload_len), payload_len_exceeds_datagram)
    ∷ []

unfoldable pub decode : List ℕ → Result MediaError MediaPacket
decode buf =
    let payload_len = from_be_bytes (slice buf 36 2) in
    let packet = read_fields buf payload_len in
    guarded (header_tests buf) (guarded (field_tests packet payload_len (length buf)) (ok packet))
