-- ===== src/Tests/Parity.antt =====
-- Packetizing a small frame, and recovering a lost chunk.
use agora_link.Prelude.{
  ℕ, ◌∷◌, [], List, some, none, ◌≡◌, refl, ok, err, length, take, guarded, All, arith,
}
use mathlib.Core.List.{map, flatten}
use agora_link.Bytes.{to_be_bytes}
use agora_link.Wire.Media.{
  MediaPacket, header, encode_with_udp_payload_size, decode, validate_udp_payload_size,
}
use agora_link.Wire.Fec.{encode as encode_parity, fec_header, expected_payload_len, FecError}
use agora_link.Fec.{
  FecMode, Frame, PacketizedFrame, packetize_frame, packetize_with, data_packets, data_packet,
  data_payloads, fec_parity, fec_packet, finish_packets, xor_all, xor_into, max_len, last_len,
  recover_missing_payload, recover_loop,
}
use agora_link.Fec.Chunks.{chunk_count, flatten-data_payloads}
use agora_link.Fec.Recovery.{recover-lost_chunk}
use agora_link.Fec.Delivery.{packetize_frame-delivers, FrameIsTyped, InFrame, Numbered}

abbrev ten_bytes : List ℕ
ten_bytes = 1 ∷ 2 ∷ 3 ∷ 4 ∷ 5 ∷ 6 ∷ 7 ∷ 8 ∷ 9 ∷ 10 ∷ []

abbrev first_chunk : List ℕ
first_chunk = 1 ∷ 2 ∷ 3 ∷ 4 ∷ []

abbrev second_chunk : List ℕ
second_chunk = 5 ∷ 6 ∷ 7 ∷ 8 ∷ []

abbrev third_chunk : List ℕ
third_chunk = 9 ∷ 10 ∷ []

ten_bytes-chunks :
    data_payloads ten_bytes 4 (chunk_count (length ten_bytes) 4) 0
    ≡ first_chunk ∷ second_chunk ∷ third_chunk ∷ []
unfolding data_payloads
ten_bytes-chunks = refl

ten_bytes_whole :
    flatten (data_payloads ten_bytes 4 (chunk_count (length ten_bytes) 4) 0) ≡ ten_bytes
ten_bytes_whole = flatten-data_payloads ten_bytes 4 (omega arith)

recover-lost_chunk_example :
    recover_missing_payload
      (some first_chunk ∷ some second_chunk ∷ none ∷ [])
      (fec_parity
        (first_chunk ∷ second_chunk ∷ third_chunk ∷ [])
        (chunk_count (length ten_bytes) 4)
        4)
      2
    ≡ ok third_chunk
recover-lost_chunk_example =
    recover-lost_chunk ten_bytes 4 (first_chunk ∷ second_chunk ∷ []) [] third_chunk (omega arith)
      (omega arith) (omega arith) ten_bytes-chunks

-- Two missing packets are an error.
two_lost :
    recover_missing_payload
      (some first_chunk ∷ none ∷ none ∷ [])
      (fec_parity (first_chunk ∷ second_chunk ∷ third_chunk ∷ []) 3 4)
      2
    ≡ err FecError.not_one_missing
unfolding recover_missing_payload recover_loop fec_parity xor_all xor_into max_len last_len
    expected_payload_len guarded
two_lost = refl

abbrev small_frame : Frame
small_frame = record {
  session_id = 7;
  frame_id = 2;
  timestamp_ms = 5;
  frame_flags = 1;
  mode = FecMode.single_xor;
}

abbrev small_out : PacketizedFrame
small_out = record {
  packets =
      (65 ∷ 71 ∷ 77 ∷ 49 ∷ 1 ∷ 1 ∷ 0 ∷ 35 ∷ 0 ∷ 0 ∷ 0 ∷ 0 ∷ 0 ∷ 0 ∷ 0 ∷ 7 ∷ 0 ∷ 0 ∷ 0 ∷ 0 ∷ 0 ∷ 0
        ∷ 0 ∷ 2 ∷ 0 ∷ 0 ∷ 0 ∷ 1 ∷ 0 ∷ 0 ∷ 0 ∷ 0 ∷ 0 ∷ 0 ∷ 0 ∷ 5 ∷ 0 ∷ 3 ∷ 1 ∷ 2 ∷ 3 ∷ [])
      ∷ (65 ∷ 71 ∷ 77 ∷ 49 ∷ 1 ∷ 1 ∷ 0 ∷ 17 ∷ 0 ∷ 0 ∷ 0 ∷ 0 ∷ 0 ∷ 0 ∷ 0 ∷ 7 ∷ 0 ∷ 0 ∷ 0 ∷ 0 ∷ 0 ∷ 0
          ∷ 0 ∷ 2 ∷ 0 ∷ 0 ∷ 0 ∷ 1 ∷ 0 ∷ 0 ∷ 0 ∷ 0 ∷ 0 ∷ 0 ∷ 0 ∷ 5 ∷ 0 ∷ 16 ∷ 70 ∷ 69 ∷ 67 ∷ 49 ∷ 1
          ∷ 0 ∷ 1 ∷ 2 ∷ 13 ∷ 0 ∷ 3 ∷ 0 ∷ 3 ∷ 1 ∷ 2 ∷ 3 ∷ [])
      ∷ [];
  data_packet_count = 1;
  fec_packet_count = 1;
  fec_bytes = 54;
}

small_out-packetized : packetize_frame small_frame (1 ∷ 2 ∷ 3 ∷ []) 576 ≡ ok small_out
unfolding packetize_frame packetize_with data_packets data_packet data_payloads fec_parity
    fec_packet finish_packets xor_all xor_into max_len last_len encode_with_udp_payload_size
    validate_udp_payload_size header guarded to_be_bytes encode_parity fec_header
small_out-packetized = refl

small_frame-IsTyped : FrameIsTyped small_frame
small_frame-IsTyped = record {
  session_id_u64 = omega arith;
  frame_id_u64 = omega arith;
  timestamp_ms_u64 = omega arith;
  frame_flags_u16 = omega arith;
}

packetize_frame-delivers_example :
    (ps : List MediaPacket) × (map decode (take small_out.data_packet_count small_out.packets)
      ≡ map ok ps)
    × (flatten (map (λ p. p.payload) ps) ≡ 1 ∷ 2 ∷ 3 ∷ [])
    × All (InFrame small_frame small_out.data_packet_count) ps
    × Numbered 0 ps
packetize_frame-delivers_example =
    packetize_frame-delivers small_frame (1 ∷ 2 ∷ 3 ∷ []) 576 small_out small_frame-IsTyped
      (omega arith) small_out-packetized
