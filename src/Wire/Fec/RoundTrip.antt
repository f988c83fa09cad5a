-- ===== src/Wire/Fec/RoundTrip.antt =====
-- FEC1 payloads and the parity that they carry.
use agora_link.Prelude.{
  ℕ, ◌<◌, ◌≡◌, refl, List, ◌++◌, arith, length, ok, guarded-passed, guarded_pass, AllPass,
  ltb_false→le, ok-injective,
}
use agora_link.Bytes.{to_be_bytes, from_be_bytes, from_be_bytes-to_be_bytes, slice}
use agora_link.Wire.Fec.{
  FecParity, IsWellTyped, fec_header, encode_tests, encode, read_metadata, metadata_tests,
  decode_owned,
}

payload_of : FecParity → ℕ → List ℕ
payload_of p n = fec_header p n ++ p.parity

module _ (p : FecParity) (typed : IsWellTyped p) (n : ℕ) (small : n < 65536) where
  read-metadata : read_metadata (payload_of p n) ≡ p
  unfolding payload_of fec_header to_be_bytes read_metadata
  read-metadata = λ i. record {
    data_packet_count = from_be_bytes-to_be_bytes 2 p.data_packet_count typed.count_u16 i;
    data_payload_size = from_be_bytes-to_be_bytes 2 p.data_payload_size typed.size_u16 i;
    last_data_payload_len = from_be_bytes-to_be_bytes 2 p.last_data_payload_len typed.last_u16 i;
    parity = p.parity;
  }

  read-len : from_be_bytes (slice (payload_of p n) 11 2) ≡ n
  unfolding payload_of fec_header to_be_bytes
  read-len = from_be_bytes-to_be_bytes 2 n (omega arith)

  tests-pass :
      n ≡ length p.parity → AllPass (encode_tests p) → AllPass (metadata_tests (payload_of p n) p n)
  unfolding payload_of fec_header to_be_bytes
  tests-pass len h = ground arith

-- Decoding an encoded parity payload whose fields are within their Rust types gives the parity back.
pub decode_owned-encode :
    (p : FecParity) (bytes : List ℕ)
    → IsWellTyped p
    → encode p ≡ ok bytes
    → decode_owned bytes ≡ ok p
unfolding encode decode_owned payload_of
decode_owned-encode p bytes typed e =
    let n : ℕ = length p.parity in
    let (h, written) = guarded-passed (encode_tests p) _ e in
    let small : n < 65536 = omega (arith, ltb_false→le 65535 n h.1.1.1.1.0) in
    let same : payload_of p n ≡ bytes = ok-injective written in
    rw (← same, read-metadata p typed n small, read-len p typed n small)
      (guarded_pass _ _ (tests-pass p typed n small refl h))
