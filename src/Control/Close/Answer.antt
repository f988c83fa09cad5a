-- ===== src/Control/Close/Answer.antt =====
-- `StreamCloseAck`
pub mod Codec
use agora_link.Prelude.{
  ℕ, ◌<◌, ◌^◌, List, [], ◌∷◌, ◌++◌, length, get_or, list_eq, Bool, not, ◌&&◌, ◌||◌, ◌==◌, Result,
  ok, guarded,
}
use agora_link.Bytes.{slice}
use agora_link.Control.Fields.{push_fields, read_u64}
use agora_link.Control.Profile.Change.{media_control_version}
use agora_link.Control.Close.Request.{StreamClose}

abbrev pub stream_close_ack_magic : List ℕ
stream_close_ack_magic = b'M' ∷ b'C' ∷ b'L' ∷ b'A' ∷ []

abbrev stream_close_ack_len : ℕ
stream_close_ack_len = 24

pub record StreamCloseAck : Type 0 where
  pub version : ℕ
  pub stream_id : ℕ
  pub video_session_id : ℕ
  pub close_id : ℕ

-- The ranges of the Rust field types.
pub record IsWellTyped (a : StreamCloseAck) : Type 0 where
  pub version_u8 : a.version < 256
  pub stream_id_u8 : a.stream_id < 256
  pub video_session_id_u64 : a.video_session_id < 256 ^ 8
  pub close_id_u64 : a.close_id < 256 ^ 8

-- `StreamClose::ack`
unfoldable pub ack : StreamClose → StreamCloseAck
ack c = record {
  version = media_control_version;
  stream_id = c.stream_id;
  video_session_id = c.video_session_id;
  close_id = c.close_id;
}

abbrev pub matches : StreamCloseAck → StreamClose → Bool
matches a c =
    a.stream_id == c.stream_id
    && a.video_session_id == c.video_session_id
    && a.close_id == c.close_id

pub data CloseAckError : Type 0 where
  bad_close_ack_fields not_stream_close_ack bad_close_ack_header : CloseAckError

-- `StreamCloseAck::validate`
abbrev pub close_ack_tests : StreamCloseAck → List (Bool × CloseAckError)
close_ack_tests a =
    (
      not (a.version == media_control_version) || a.stream_id == 0 || a.close_id == 0,
      bad_close_ack_fields,
    )
    ∷ []

-- What `encode` writes.
unfoldable pub close_ack_bytes : StreamCloseAck → List ℕ
close_ack_bytes a =
    stream_close_ack_magic
    ++ a.version
      ∷ a.stream_id
      ∷ 0
      ∷ 0
      ∷ push_fields ((8, a.video_session_id) ∷ (8, a.close_id) ∷ [])

unfoldable pub encode : StreamCloseAck → Result CloseAckError (List ℕ)
encode a = guarded (close_ack_tests a) (ok (close_ack_bytes a))

unfoldable pub read_close_ack : List ℕ → StreamCloseAck
read_close_ack bytes = record {
  version = get_or bytes 4 0;
  stream_id = get_or bytes 5 0;
  video_session_id = read_u64 bytes 8;
  close_id = read_u64 bytes 16;
}

abbrev pub opening_tests : List ℕ → List (Bool × CloseAckError)
opening_tests bytes =
    (
      not (length bytes == stream_close_ack_len)
          || not (list_eq (slice bytes 0 4) stream_close_ack_magic),
      not_stream_close_ack,
    )
    ∷ (
      not (get_or bytes 4 0 == media_control_version)
          || not (list_eq (slice bytes 6 2) (0 ∷ 0 ∷ [])),
      bad_close_ack_header,
    )
    ∷ []

unfoldable pub decode : List ℕ → Result CloseAckError StreamCloseAck
decode bytes =
    guarded (opening_tests bytes)
      (guarded (close_ack_tests (read_close_ack bytes)) (ok (read_close_ack bytes)))
