-- ===== src/Tests/Codecs.antt =====
-- The three wire formats on small datagrams.
use agora_link.Prelude.{
  ℕ, ◌+◌, ◌∷◌, [], ◌++◌, List, ◌≡◌, refl, ◌≤◌, ok, err, length, take, guarded, arith,
}
use agora_link.Bytes.{to_be_bytes, from_be_bytes}
use agora_link.Wire.Media.{
  MediaPacket, IsWellTyped, header, header_len, encode_with_udp_payload_size, decode, read_fields,
  validate_udp_payload_size, max_udp_payload_size, packet_too_short,
}
use agora_link.Wire.Media.RoundTrip.{decode-encode, length-encode}
use agora_link.Wire.Media.Canonical.{encode-decode}
use agora_link.Wire.Nack.{
  encode as encode_nack, decode as decode_nack, NackPacket, NackIsTyped, nack_header, encode_item,
  encode_items, decode_item, chunks, chunks_exact,
}
use agora_link.Wire.Nack.RoundTrip.{decode-encode_nack}
use agora_link.Wire.Nack.Canonical.{encode-decode_nack}
use agora_link.Wire.Fec.{
  encode as encode_fec, FecParity, decode_owned, fec_header, IsWellTyped as ParityIsTyped,
}
use agora_link.Wire.Fec.RoundTrip.{decode_owned-encode}

abbrev pub three_bytes : MediaPacket
three_bytes = record {
  stream_id = 1;
  flags = 3;
  session_id = 7;
  frame_id = 260;
  packet_index = 0;
  packet_count = 1;
  timestamp_ms = 1000;
  payload = 10 ∷ 20 ∷ 30 ∷ [];
}

abbrev pub three_bytes_sent : List ℕ
three_bytes_sent =
    b'A' ∷ b'G' ∷ b'M' ∷ b'1' ∷ 1 ∷ 1 ∷ 0 ∷ 3 ∷ 0 ∷ 0 ∷ 0 ∷ 0 ∷ 0 ∷ 0 ∷ 0 ∷ 7 ∷ 0 ∷ 0 ∷ 0 ∷ 0 ∷ 0
    ∷ 0 ∷ 1 ∷ 4 ∷ 0 ∷ 0 ∷ 0 ∷ 1 ∷ 0 ∷ 0 ∷ 0 ∷ 0 ∷ 0 ∷ 0 ∷ 3 ∷ 232 ∷ 0 ∷ 3 ∷ 10 ∷ 20 ∷ 30 ∷ []

three_bytes-encode : encode_with_udp_payload_size three_bytes 1200 ≡ ok three_bytes_sent
unfolding encode_with_udp_payload_size validate_udp_payload_size header guarded to_be_bytes
three_bytes-encode = refl

three_bytes-decode : decode (three_bytes_sent ++ 99 ∷ []) ≡ ok three_bytes
unfolding decode read_fields from_be_bytes guarded
three_bytes-decode = refl

no_header : decode (b'A' ∷ b'G' ∷ []) ≡ err packet_too_short
unfolding decode read_fields from_be_bytes guarded
no_header = refl

three_bytes-IsWellTyped : IsWellTyped three_bytes
three_bytes-IsWellTyped = record {
  stream_id_u8 = omega arith;
  flags_u16 = omega arith;
  session_id_u64 = omega arith;
  frame_id_u64 = omega arith;
  packet_index_u16 = omega arith;
  packet_count_u16 = omega arith;
  timestamp_ms_u64 = omega arith;
  payload_bytes = omega arith;
}

decode-encode_example : decode (three_bytes_sent ++ 99 ∷ []) ≡ ok three_bytes
decode-encode_example =
    decode-encode three_bytes 1200 three_bytes_sent (99 ∷ []) three_bytes-IsWellTyped
      three_bytes-encode (omega arith)

three_bytes_fit :
    (length three_bytes_sent ≡ header_len + length three_bytes.payload)
    × (length three_bytes_sent ≤ 1200)
three_bytes_fit = length-encode three_bytes 1200 three_bytes_sent three_bytes-encode

encode-decode_example :
    IsWellTyped three_bytes
    × (encode_with_udp_payload_size three_bytes max_udp_payload_size
        ≡ ok (take (header_len + length three_bytes.payload) (three_bytes_sent ++ 99 ∷ [])))
encode-decode_example =
    encode-decode (three_bytes_sent ++ 99 ∷ []) three_bytes (ground arith) three_bytes-decode

abbrev two_keys : NackPacket
two_keys = record {
  session_id = 7;
  items =
      record { frame_id = 3; packet_index = 1 } ∷ record { frame_id = 4; packet_index = 258 } ∷ [];
}

abbrev two_keys_sent : List ℕ
two_keys_sent =
    b'N' ∷ b'A' ∷ b'C' ∷ b'K' ∷ 1 ∷ 0 ∷ 0 ∷ 0 ∷ 0 ∷ 0 ∷ 0 ∷ 0 ∷ 7 ∷ 0 ∷ 2 ∷ 0 ∷ 0 ∷ 0 ∷ 0 ∷ 0 ∷ 0
    ∷ 0 ∷ 3 ∷ 0 ∷ 1 ∷ 0 ∷ 0 ∷ 0 ∷ 0 ∷ 0 ∷ 0 ∷ 0 ∷ 4 ∷ 1 ∷ 2 ∷ []

two_keys-encode : encode_nack two_keys ≡ ok two_keys_sent
unfolding encode_nack nack_header encode_item encode_items guarded to_be_bytes
two_keys-encode = refl

two_keys-decode : decode_nack two_keys_sent ≡ ok two_keys
unfolding decode_nack decode_item chunks chunks_exact from_be_bytes guarded
two_keys-decode = refl

decode-encode_nack_example : decode_nack two_keys_sent ≡ ok two_keys
decode-encode_nack_example =
    decode-encode_nack two_keys two_keys_sent (ground arith) two_keys-encode

encode-decode_nack_example : NackIsTyped two_keys × (encode_nack two_keys ≡ ok two_keys_sent)
encode-decode_nack_example =
    encode-decode_nack two_keys_sent two_keys (ground arith) two_keys-decode

abbrev two_chunks : FecParity
two_chunks = record {
  data_packet_count = 2;
  data_payload_size = 3;
  last_data_payload_len = 1;
  parity = 11 ∷ 2 ∷ 3 ∷ [];
}

abbrev two_chunks_sent : List ℕ
two_chunks_sent = b'F' ∷ b'E' ∷ b'C' ∷ b'1' ∷ 1 ∷ 0 ∷ 2 ∷ 0 ∷ 3 ∷ 0 ∷ 1 ∷ 0 ∷ 3 ∷ 11 ∷ 2 ∷ 3 ∷ []

two_chunks-encode : encode_fec two_chunks ≡ ok two_chunks_sent
unfolding encode_fec fec_header guarded to_be_bytes
two_chunks-encode = refl

two_chunks-IsTyped : ParityIsTyped two_chunks
two_chunks-IsTyped = record {
  count_u16 = omega arith;
  size_u16 = omega arith;
  last_u16 = omega arith;
  parity_bytes = omega arith;
}

decode_owned-encode_example : decode_owned two_chunks_sent ≡ ok two_chunks
decode_owned-encode_example =
    decode_owned-encode two_chunks two_chunks_sent two_chunks-IsTyped two_chunks-encode
