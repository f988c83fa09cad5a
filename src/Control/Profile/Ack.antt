-- ===== src/Control/Profile/Ack.antt =====
-- `ProfileAck`: what the receiver answers to a profile change.
pub mod Codec
use agora_link.Prelude.{
  ℕ, ◌<◌, ◌^◌, List, [], ◌∷◌, ◌++◌, length, get_or, list_eq, Bool, not, ◌&&◌, ◌||◌, ◌==◌, Result,
  ok, guarded,
}
use agora_link.Bytes.{slice}
use agora_link.Control.Fields.{push_fields, read_u64}
use agora_link.Control.Profile.Change.{ProfileChange, media_control_version}

abbrev pub profile_ack_magic : List ℕ
profile_ack_magic = b'M' ∷ b'P' ∷ b'A' ∷ b'K' ∷ []

abbrev profile_ack_len : ℕ
profile_ack_len = 40

abbrev profile_ack_status_accepted : ℕ
profile_ack_status_accepted = 1

abbrev profile_ack_status_rejected : ℕ
profile_ack_status_rejected = 2

abbrev profile_ack_reason_none : ℕ
profile_ack_reason_none = 0

pub record ProfileAck : Type 0 where
  pub version : ℕ
  pub status : ℕ
  pub reason_code : ℕ
  pub old_session_id : ℕ
  pub new_session_id : ℕ
  pub change_sequence : ℕ
  pub profile_generation : ℕ

-- The ranges of the Rust field types.
pub record IsWellTyped (a : ProfileAck) : Type 0 where
  pub version_u8 : a.version < 256
  pub status_u8 : a.status < 256
  pub reason_code_u8 : a.reason_code < 256
  pub old_session_id_u64 : a.old_session_id < 256 ^ 8
  pub new_session_id_u64 : a.new_session_id < 256 ^ 8
  pub change_sequence_u64 : a.change_sequence < 256 ^ 8
  pub profile_generation_u64 : a.profile_generation < 256 ^ 8

abbrev pub accepted : ProfileChange → ProfileAck
accepted change = record {
  version = media_control_version;
  status = profile_ack_status_accepted;
  reason_code = profile_ack_reason_none;
  old_session_id = change.old_session_id;
  new_session_id = change.new_session_id;
  change_sequence = change.change_sequence;
  profile_generation = change.profile_generation;
}

abbrev pub is_accepted : ProfileAck → Bool
is_accepted a = a.status == profile_ack_status_accepted

pub data AckError : Type 0 where
  bad_ack_fields accepted_with_reason not_profile_ack bad_ack_header : AckError

-- `ProfileAck::validate`
abbrev pub ack_tests : ProfileAck → List (Bool × AckError)
ack_tests a =
    (
      not (a.version == media_control_version)
          || not
              (a.status == profile_ack_status_accepted || a.status == profile_ack_status_rejected)
          || a.old_session_id == 0
          || a.new_session_id == 0
          || a.old_session_id == a.new_session_id
          || a.change_sequence == 0
          || a.profile_generation == 0,
      bad_ack_fields,
    )
    ∷ (
      a.status == profile_ack_status_accepted && not (a.reason_code == profile_ack_reason_none),
      accepted_with_reason,
    )
    ∷ []

-- What `encode` writes.
unfoldable pub ack_bytes : ProfileAck → List ℕ
ack_bytes a =
    profile_ack_magic
    ++ a.version
      ∷ a.status
      ∷ a.reason_code
      ∷ 0
      ∷ push_fields (
          (8, a.old_session_id)
          ∷ (8, a.new_session_id)
          ∷ (8, a.change_sequence)
          ∷ (8, a.profile_generation)
          ∷ [])

unfoldable pub encode : ProfileAck → Result AckError (List ℕ)
encode a = guarded (ack_tests a) (ok (ack_bytes a))

unfoldable pub read_ack : List ℕ → ProfileAck
read_ack bytes = record {
  version = get_or bytes 4 0;
  status = get_or bytes 5 0;
  reason_code = get_or bytes 6 0;
  old_session_id = read_u64 bytes 8;
  new_session_id = read_u64 bytes 16;
  change_sequence = read_u64 bytes 24;
  profile_generation = read_u64 bytes 32;
}

abbrev pub opening_tests : List ℕ → List (Bool × AckError)
opening_tests bytes =
    (
      not (length bytes == profile_ack_len) || not (list_eq (slice bytes 0 4) profile_ack_magic),
      not_profile_ack,
    )
    ∷ (
      not (get_or bytes 4 0 == media_control_version) || not (get_or bytes 7 0 == 0),
      bad_ack_header,
    )
    ∷ []

unfoldable pub decode : List ℕ → Result AckError ProfileAck
decode bytes =
    guarded (opening_tests bytes) (guarded (ack_tests (read_ack bytes)) (ok (read_ack bytes)))
