-- ===== src/Wire/Fec.antt =====
-- FEC1 parity payloads: `FecParity` of rust-native/agoralink_media/src/fec.rs.
pub mod RoundTrip
use agora_link.Prelude.{
  ℕ, ◌+◌, ◌-◌, ◌%◌, ◌^◌, ◌<◌, List, [], ◌∷◌, ◌++◌, length, get_or, list_eq, not, ◌||◌, ltb, leb,
  ◌==◌, Bool, if◌then◌else◌, Result, ok, err, guarded, All, drop,
}
use agora_link.Bytes.{IsByte, to_be_bytes, from_be_bytes, slice}
use agora_link.Wire.Media.{legacy_media_payload, max_media_payload, max_video_packet_count}

abbrev fec_magic : List ℕ
fec_magic = b'F' ∷ b'E' ∷ b'C' ∷ b'1' ∷ []

abbrev fec_version : ℕ
fec_version = 1

abbrev pub fec_metadata_len : ℕ
fec_metadata_len = 13

abbrev fec_data_payload_size : ℕ
fec_data_payload_size = legacy_media_payload - fec_metadata_len

pub record FecParity : Type 0 where
  pub data_packet_count : ℕ
  pub data_payload_size : ℕ
  pub last_data_payload_len : ℕ
  pub parity : List ℕ

-- The ranges of the Rust field types.
pub record IsWellTyped (p : FecParity) : Type 0 where
  pub count_u16 : p.data_packet_count < 256 ^ 2
  pub size_u16 : p.data_payload_size < 256 ^ 2
  pub last_u16 : p.last_data_payload_len < 256 ^ 2
  pub parity_bytes : All IsByte p.parity

pub data FecError : Type 0 where
  zero_count count_limit parity_too_long last_too_long parity_exceeds_u16 payload_limit : FecError
  invalid_payload invalid_metadata packet_index_out_of_range : FecError
  unsupported_version : ℕ → FecError
  count_mismatch parity_too_short not_one_missing length_mismatch : FecError

unfoldable pub fec_header : FecParity → ℕ → List ℕ
fec_header p parity_len =
    fec_magic
    ++ fec_version ∷ to_be_bytes 2 p.data_packet_count
    ++ to_be_bytes 2 p.data_payload_size
    ++ to_be_bytes 2 p.last_data_payload_len
    ++ to_be_bytes 2 parity_len

abbrev pub encode_tests : FecParity → List (Bool × FecError)
encode_tests p =
    (p.data_packet_count == 0, zero_count)
    ∷ (ltb max_video_packet_count p.data_packet_count, count_limit)
    ∷ (p.data_payload_size == 0 || ltb p.data_payload_size (length p.parity), parity_too_long)
    ∷ (ltb p.data_payload_size p.last_data_payload_len, last_too_long)
    ∷ (ltb (2 ^ 16 - 1) (length p.parity), parity_exceeds_u16)
    ∷ (ltb max_media_payload (length (fec_header p (length p.parity) ++ p.parity)), payload_limit)
    ∷ []

unfoldable pub encode : FecParity → Result FecError (List ℕ)
encode p = guarded (encode_tests p) (ok (fec_header p (length p.parity) ++ p.parity))

-- The metadata that `decode_metadata` reads, with the parity that `split_off` takes.
unfoldable pub read_metadata : List ℕ → FecParity
read_metadata payload = record {
  data_packet_count = from_be_bytes (slice payload 5 2);
  data_payload_size = from_be_bytes (slice payload 7 2);
  last_data_payload_len = from_be_bytes (slice payload 9 2);
  parity = drop fec_metadata_len payload;
}

abbrev pub metadata_tests : List ℕ → FecParity → ℕ → List (Bool × FecError)
metadata_tests payload p parity_len =
    (
      ltb (length payload) fec_metadata_len || not (list_eq (slice payload 0 4) fec_magic),
      invalid_payload,
    )
    ∷ (not (get_or payload 4 0 == fec_version), unsupported_version (get_or payload 4 0))
    ∷ (
      p.data_packet_count == 0
          || ltb max_video_packet_count p.data_packet_count
          || p.data_payload_size == 0
          || ltb p.data_payload_size p.last_data_payload_len
          || ltb p.data_payload_size parity_len
          || not (fec_metadata_len + parity_len == length payload),
      invalid_metadata,
    )
    ∷ []

unfoldable pub decode_owned : List ℕ → Result FecError FecParity
decode_owned payload =
    guarded (metadata_tests payload (read_metadata payload) (from_be_bytes (slice payload 11 2)))
      (ok (read_metadata payload))

unfoldable pub expected_payload_len : FecParity → ℕ → Result FecError ℕ
expected_payload_len p packet_index =
    if leb p.data_packet_count packet_index
    then err packet_index_out_of_range
    else if packet_index + 1 == p.data_packet_count
    then ok p.last_data_payload_len
    else ok p.data_payload_size
