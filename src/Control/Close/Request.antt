-- ===== src/Control/Close/Request.antt =====
-- `StreamClose`
pub mod Codec
use agora_link.Prelude.{
  ℕ, ◌<◌, ◌^◌, List, [], ◌∷◌, ◌++◌, length, get_or, list_eq, Bool, true, false, not, ◌||◌, ◌==◌,
  Option, none, some, Result, ok, guarded,
}
use agora_link.Bytes.{slice}
use agora_link.Control.Fields.{push_fields, read_u64}
use agora_link.Control.Profile.Change.{media_control_version}
use agora_link.Shutdown.{StopReason, reason_from_code}

abbrev pub stream_close_magic : List ℕ
stream_close_magic = b'M' ∷ b'C' ∷ b'L' ∷ b'S' ∷ []

abbrev stream_close_len : ℕ
stream_close_len = 40

pub record StreamClose : Type 0 where
  pub version : ℕ
  pub stream_id : ℕ
  pub reason_code : ℕ
  pub video_session_id : ℕ
  pub close_id : ℕ
  pub timestamp_us : ℕ
  pub last_frame_id : ℕ

-- The ranges of the Rust field types.
pub record IsWellTyped (c : StreamClose) : Type 0 where
  pub version_u8 : c.version < 256
  pub stream_id_u8 : c.stream_id < 256
  pub reason_code_u8 : c.reason_code < 256
  pub video_session_id_u64 : c.video_session_id < 256 ^ 8
  pub close_id_u64 : c.close_id < 256 ^ 8
  pub timestamp_us_u64 : c.timestamp_us < 256 ^ 8
  pub last_frame_id_u64 : c.last_frame_id < 256 ^ 8

pub data CloseError : Type 0 where
  bad_close_fields not_stream_close bad_close_header : CloseError

abbrev pub no_reason : Option StopReason → Bool
no_reason none = true
no_reason (some reason) = false

-- `StreamClose::validate`
abbrev pub close_tests : StreamClose → List (Bool × CloseError)
close_tests c =
    (
      not (c.version == media_control_version)
          || c.stream_id == 0
          || no_reason (reason_from_code c.reason_code)
          || c.close_id == 0,
      bad_close_fields,
    )
    ∷ []

-- What `encode` writes.
unfoldable pub close_bytes : StreamClose → List ℕ
close_bytes c =
    stream_close_magic
    ++ c.version
      ∷ c.stream_id
      ∷ c.reason_code
      ∷ 0
      ∷ push_fields (
          (8, c.video_session_id)
          ∷ (8, c.close_id)
          ∷ (8, c.timestamp_us)
          ∷ (8, c.last_frame_id)
          ∷ [])

unfoldable pub encode : StreamClose → Result CloseError (List ℕ)
encode c = guarded (close_tests c) (ok (close_bytes c))

unfoldable pub read_close : List ℕ → StreamClose
read_close bytes = record {
  version = get_or bytes 4 0;
  stream_id = get_or bytes 5 0;
  reason_code = get_or bytes 6 0;
  video_session_id = read_u64 bytes 8;
  close_id = read_u64 bytes 16;
  timestamp_us = read_u64 bytes 24;
  last_frame_id = read_u64 bytes 32;
}

abbrev pub opening_tests : List ℕ → List (Bool × CloseError)
opening_tests bytes =
    (
      not (length bytes == stream_close_len) || not (list_eq (slice bytes 0 4) stream_close_magic),
      not_stream_close,
    )
    ∷ (
      not (get_or bytes 4 0 == media_control_version) || not (get_or bytes 7 0 == 0),
      bad_close_header,
    )
    ∷ []

unfoldable pub decode : List ℕ → Result CloseError StreamClose
decode bytes =
    guarded (opening_tests bytes) (guarded (close_tests (read_close bytes)) (ok (read_close bytes)))
