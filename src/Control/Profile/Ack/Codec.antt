-- ===== src/Control/Profile/Ack/Codec.antt =====
-- The datagrams of profile acknowledgements.
use agora_link.Prelude.{
  ℕ, ◌≡◌, refl, ap, ◌∙◌, ◌↔◌, List, [], ◌∷◌, length, get_or, list_eq→eq, not-false, ==→eq, false,
  ◌||◌, ◌==◌, not, All, AllPass, ok, guarded-passed, guarded_pass, ok-injective, arith,
}
use agora_link.Bytes.{IsByte, to_be_bytes, from_be_bytes-to_be_bytes, slice, All-get_or}
use agora_link.Control.Fields.{field-lt, rejoin, or-false}
use agora_link.Control.Profile.Ack.{
  ProfileAck, IsWellTyped, profile_ack_magic, ack_tests, ack_bytes, encode, read_ack, opening_tests,
  decode,
}

module _ (a : ProfileAck) (t : IsWellTyped a) where
  read_ack-bytes : read_ack (ack_bytes a) ≡ a
  unfolding read_ack ack_bytes to_be_bytes
  read_ack-bytes = λ i. record {
    version = a.version;
    status = a.status;
    reason_code = a.reason_code;
    old_session_id = from_be_bytes-to_be_bytes 8 a.old_session_id t.old_session_id_u64 i;
    new_session_id = from_be_bytes-to_be_bytes 8 a.new_session_id t.new_session_id_u64 i;
    change_sequence = from_be_bytes-to_be_bytes 8 a.change_sequence t.change_sequence_u64 i;
    profile_generation =
        from_be_bytes-to_be_bytes 8 a.profile_generation t.profile_generation_u64 i;
  }

  ack_header-bytes : a.version ≡ 1 → AllPass (opening_tests (ack_bytes a))
  unfolding ack_bytes to_be_bytes
  ack_header-bytes v = (refl, (ap (λ n. not (n == 1) || false) v, tt))

module _ (bytes : List ℕ) (h : All IsByte bytes) (long : length bytes ≡ 40) where
  read_ack-IsWellTyped : IsWellTyped (read_ack bytes)
  unfolding read_ack
  read_ack-IsWellTyped = record {
    version_u8 = All-get_or bytes 4 h;
    status_u8 = All-get_or bytes 5 h;
    reason_code_u8 = All-get_or bytes 6 h;
    old_session_id_u64 = field-lt 8 8 bytes h (omega arith);
    new_session_id_u64 = field-lt 8 16 bytes h (omega arith);
    change_sequence_u64 = field-lt 8 24 bytes h (omega arith);
    profile_generation_u64 = field-lt 8 32 bytes h (omega arith);
  }

  ack_bytes-read : AllPass (opening_tests bytes) → ack_bytes (read_ack bytes) ≡ bytes
  unfolding ack_bytes read_ack
  ack_bytes-read (first, (second, _)) =
      rejoin profile_ack_magic (get_or bytes 4 0) (get_or bytes 5 0) (get_or bytes 6 0) 0
        (8 ∷ 8 ∷ 8 ∷ 8 ∷ []) bytes h (omega arith)
        (list_eq→eq (slice bytes 0 4) profile_ack_magic (not-false _ (or-false _ _ first).1)) refl
        refl refl (==→eq (get_or bytes 7 0) 0 (not-false _ (or-false _ _ second).1))

ack_version_one : (a : ProfileAck) → AllPass (ack_tests a) → a.version ≡ 1
ack_version_one a h = ==→eq a.version 1 (
    not-false _
      (or-false _ _
        (or-false _ _ (or-false _ _ (or-false _ _ (or-false _ _ (or-false _ _ h.0).0).0).0).0).0).0)

decode-encode_ack :
    (bytes : List ℕ) (a : ProfileAck) → IsWellTyped a → encode a ≡ ok bytes → decode bytes ≡ ok a
unfolding encode decode
decode-encode_ack bytes a t e =
    let (h, written) = guarded-passed (ack_tests a) _ e in
    let same : ack_bytes a ≡ bytes = ok-injective written in
    rw (← same, guarded_pass _ _ (ack_header-bytes a t (ack_version_one a h)), read_ack-bytes a t)
      (guarded_pass _ _ h)

encode-decode_ack :
    (bytes : List ℕ) (a : ProfileAck)
    → All IsByte bytes
    → decode bytes ≡ ok a
    → IsWellTyped a × (encode a ≡ ok bytes)
unfolding encode decode
encode-decode_ack bytes a b e =
    let (h, e') = guarded-passed (opening_tests bytes) _ e in
    let (g, read) = guarded-passed (ack_tests (read_ack bytes)) _ e' in
    let long : length bytes ≡ 40 = ==→eq (length bytes) 40 (not-false _ (or-false _ _ h.0).0) in
    let same : read_ack bytes ≡ a = ok-injective read in
    rw (← same) (
      read_ack-IsWellTyped bytes b long,
      guarded_pass _ _ g ∙ ap ok (ack_bytes-read bytes b long h),
    )

-- A datagram of bytes decodes to a profile acknowledgement exactly when it is the encoding of that
-- acknowledgement, and the fields of the acknowledgement are within their Rust types.
decode_iff_ack :
    (bytes : List ℕ) (a : ProfileAck)
    → All IsByte bytes
    → (decode bytes ≡ ok a) ↔ (IsWellTyped a × (encode a ≡ ok bytes))
decode_iff_ack bytes a b = (encode-decode_ack bytes a b, λ (t, e). decode-encode_ack bytes a t e)
