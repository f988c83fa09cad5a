-- ===== src/Control/Profile/Change.antt =====
-- `ProfileChange`
pub mod Codec
use agora_link.Prelude.{
  ℕ, ◌%◌, ◌<◌, ◌^◌, List, [], ◌∷◌, ◌++◌, length, get_or, list_eq, Bool, not, ◌&&◌, ◌||◌, leb, ltb,
  ◌==◌, Result, ok, guarded,
}
use agora_link.Bytes.{slice}
use agora_link.Control.Fields.{push_fields, read_u8, read_u32, read_u64}

abbrev pub profile_change_magic : List ℕ
profile_change_magic = b'M' ∷ b'P' ∷ b'R' ∷ b'F' ∷ []

abbrev pub media_control_version : ℕ
media_control_version = 1

abbrev profile_change_len : ℕ
profile_change_len = 65

-- The bitrate is a 32-bit floating point number, held by its bits.
pub record ProfileChange : Type 0 where
  pub version : ℕ
  pub old_session_id : ℕ
  pub new_session_id : ℕ
  pub change_sequence : ℕ
  pub profile_generation : ℕ
  pub width : ℕ
  pub height : ℕ
  pub fps : ℕ
  pub bitrate_mbps : ℕ
  pub timestamp_us : ℕ
  pub reason_code : ℕ

-- The ranges of the Rust field types.
pub record IsWellTyped (p : ProfileChange) : Type 0 where
  pub version_u8 : p.version < 256
  pub old_session_id_u64 : p.old_session_id < 256 ^ 8
  pub new_session_id_u64 : p.new_session_id < 256 ^ 8
  pub change_sequence_u64 : p.change_sequence < 256 ^ 8
  pub profile_generation_u64 : p.profile_generation < 256 ^ 8
  pub width_u32 : p.width < 256 ^ 4
  pub height_u32 : p.height < 256 ^ 4
  pub fps_u32 : p.fps < 256 ^ 4
  pub bitrate_mbps_f32 : p.bitrate_mbps < 256 ^ 4
  pub timestamp_us_u64 : p.timestamp_us < 256 ^ 8
  pub reason_code_u8 : p.reason_code < 256 ^ 1

pub data ChangeError : Type 0 where
  bad_transition bad_dimensions bad_fps_or_bitrate bad_reason_code not_profile_change bad_header :
      ChangeError

-- `is_finite() && (0.1..=1000.0).contains(&bitrate)`: positive floating point numbers are ordered as
-- their bits are, and these are the bits of 0.1 and of 1000.0.
abbrev bitrate_in_range : ℕ → Bool
bitrate_in_range bits = leb 0x3DCCCCCD bits && leb bits 0x447A0000

-- `ProfileChange::validate`
abbrev pub change_tests : ProfileChange → List (Bool × ChangeError)
change_tests p =
    (
      not (p.version == media_control_version)
          || p.old_session_id == 0
          || p.new_session_id == 0
          || p.old_session_id == p.new_session_id
          || p.change_sequence == 0
          || p.profile_generation == 0,
      bad_transition,
    )
    ∷ (
      p.width == 0
          || p.height == 0
          || not (p.width % 2 == 0)
          || not (p.height % 2 == 0)
          || ltb 32768 p.width
          || ltb 32768 p.height,
      bad_dimensions,
    )
    ∷ (
      not (leb 1 p.fps && leb p.fps 240) || not (bitrate_in_range p.bitrate_mbps),
      bad_fps_or_bitrate,
    )
    ∷ (not (leb 1 p.reason_code && leb p.reason_code 3), bad_reason_code)
    ∷ []

abbrev pub validate : ProfileChange → Result ChangeError Unit
validate p = guarded (change_tests p) (ok tt)

-- What `encode` writes.
unfoldable pub change_bytes : ProfileChange → List ℕ
change_bytes p =
    profile_change_magic
    ++ media_control_version
      ∷ 0
      ∷ 0
      ∷ 0
      ∷ push_fields (
          (8, p.old_session_id)
          ∷ (8, p.new_session_id)
          ∷ (8, p.change_sequence)
          ∷ (8, p.profile_generation)
          ∷ (4, p.width)
          ∷ (4, p.height)
          ∷ (4, p.fps)
          ∷ (4, p.bitrate_mbps)
          ∷ (8, p.timestamp_us)
          ∷ (1, p.reason_code)
          ∷ [])

unfoldable pub encode : ProfileChange → Result ChangeError (List ℕ)
encode p = guarded (change_tests p) (ok (change_bytes p))

unfoldable pub read_change : List ℕ → ProfileChange
read_change bytes = record {
  version = get_or bytes 4 0;
  old_session_id = read_u64 bytes 8;
  new_session_id = read_u64 bytes 16;
  change_sequence = read_u64 bytes 24;
  profile_generation = read_u64 bytes 32;
  width = read_u32 bytes 40;
  height = read_u32 bytes 44;
  fps = read_u32 bytes 48;
  bitrate_mbps = read_u32 bytes 52;
  timestamp_us = read_u64 bytes 56;
  reason_code = read_u8 bytes 64;
}

abbrev pub opening_tests : List ℕ → List (Bool × ChangeError)
opening_tests bytes =
    (
      not (length bytes == profile_change_len)
          || not (list_eq (slice bytes 0 4) profile_change_magic),
      not_profile_change,
    )
    ∷ (
      not (get_or bytes 4 0 == media_control_version)
          || not (list_eq (slice bytes 5 3) (0 ∷ 0 ∷ 0 ∷ [])),
      bad_header,
    )
    ∷ []

unfoldable pub decode : List ℕ → Result ChangeError ProfileChange
decode bytes =
    guarded (opening_tests bytes)
      (guarded (change_tests (read_change bytes)) (ok (read_change bytes)))
