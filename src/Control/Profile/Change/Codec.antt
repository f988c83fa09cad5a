-- ===== src/Control/Profile/Change/Codec.antt =====
-- The datagrams of profile changes.
use agora_link.Prelude.{
  ℕ, ◌≡◌, refl, sym, ap, ◌∙◌, ◌↔◌, List, [], ◌∷◌, length, get_or, list_eq, list_eq→eq, not-false,
  ==→eq, true, All, AllPass, ok, guarded-passed, guarded_pass, ok-injective, arith,
}
use agora_link.Bytes.{IsByte, to_be_bytes, from_be_bytes-to_be_bytes, slice, All-get_or}
use agora_link.Control.Fields.{field-lt, rejoin, byte_of_slice, or-false}
use agora_link.Control.Profile.Change.{
  ProfileChange, IsWellTyped, profile_change_magic, change_tests, change_bytes, encode, read_change,
  opening_tests, decode,
}

module _ (p : ProfileChange) (t : IsWellTyped p) where
  read_change-bytes : p.version ≡ 1 → read_change (change_bytes p) ≡ p
  unfolding read_change change_bytes to_be_bytes
  read_change-bytes v = λ i. record {
    version = sym v i;
    old_session_id = from_be_bytes-to_be_bytes 8 p.old_session_id t.old_session_id_u64 i;
    new_session_id = from_be_bytes-to_be_bytes 8 p.new_session_id t.new_session_id_u64 i;
    change_sequence = from_be_bytes-to_be_bytes 8 p.change_sequence t.change_sequence_u64 i;
    profile_generation =
        from_be_bytes-to_be_bytes 8 p.profile_generation t.profile_generation_u64 i;
    width = from_be_bytes-to_be_bytes 4 p.width t.width_u32 i;
    height = from_be_bytes-to_be_bytes 4 p.height t.height_u32 i;
    fps = from_be_bytes-to_be_bytes 4 p.fps t.fps_u32 i;
    bitrate_mbps = from_be_bytes-to_be_bytes 4 p.bitrate_mbps t.bitrate_mbps_f32 i;
    timestamp_us = from_be_bytes-to_be_bytes 8 p.timestamp_us t.timestamp_us_u64 i;
    reason_code = from_be_bytes-to_be_bytes 1 p.reason_code t.reason_code_u8 i;
  }

  header-bytes : AllPass (opening_tests (change_bytes p))
  unfolding change_bytes to_be_bytes
  header-bytes = (refl, (refl, tt))

module _ (bytes : List ℕ) (h : All IsByte bytes) (long : length bytes ≡ 65) where
  read_change-IsWellTyped : IsWellTyped (read_change bytes)
  unfolding read_change
  read_change-IsWellTyped = record {
    version_u8 = All-get_or bytes 4 h;
    old_session_id_u64 = field-lt 8 8 bytes h (omega arith);
    new_session_id_u64 = field-lt 8 16 bytes h (omega arith);
    change_sequence_u64 = field-lt 8 24 bytes h (omega arith);
    profile_generation_u64 = field-lt 8 32 bytes h (omega arith);
    width_u32 = field-lt 4 40 bytes h (omega arith);
    height_u32 = field-lt 4 44 bytes h (omega arith);
    fps_u32 = field-lt 4 48 bytes h (omega arith);
    bitrate_mbps_f32 = field-lt 4 52 bytes h (omega arith);
    timestamp_us_u64 = field-lt 8 56 bytes h (omega arith);
    reason_code_u8 = field-lt 1 64 bytes h (omega arith);
  }

  change_bytes-read : AllPass (opening_tests bytes) → change_bytes (read_change bytes) ≡ bytes
  unfolding change_bytes read_change
  change_bytes-read (first, (second, _)) =
      let magic : list_eq (slice bytes 0 4) profile_change_magic ≡ true =
        not-false _ (or-false _ _ first).1 in
      let zeros : list_eq (slice bytes 5 3) (0 ∷ 0 ∷ 0 ∷ []) ≡ true =
        not-false _ (or-false _ _ second).1 in
      rejoin profile_change_magic 1 0 0 0 (8 ∷ 8 ∷ 8 ∷ 8 ∷ 4 ∷ 4 ∷ 4 ∷ 4 ∷ 8 ∷ 1 ∷ []) bytes h
        (omega arith) (list_eq→eq (slice bytes 0 4) profile_change_magic magic)
        (==→eq (get_or bytes 4 0) 1 (not-false _ (or-false _ _ second).0))
        (byte_of_slice bytes 5 3 0 (0 ∷ 0 ∷ 0 ∷ []) (omega arith) zeros)
        (byte_of_slice bytes 5 3 1 (0 ∷ 0 ∷ 0 ∷ []) (omega arith) zeros)
        (byte_of_slice bytes 5 3 2 (0 ∷ 0 ∷ 0 ∷ []) (omega arith) zeros)

version_one : (p : ProfileChange) → AllPass (change_tests p) → p.version ≡ 1
version_one p h = ==→eq p.version 1 (
    not-false _
      (or-false _ _ (or-false _ _ (or-false _ _ (or-false _ _ (or-false _ _ h.0).0).0).0).0).0)

decode-encode_change :
    (bytes : List ℕ) (p : ProfileChange) → IsWellTyped p → encode p ≡ ok bytes → decode bytes ≡ ok p
unfolding encode decode
decode-encode_change bytes p t e =
    let (h, written) = guarded-passed (change_tests p) _ e in
    let same : change_bytes p ≡ bytes = ok-injective written in
    rw (← same, guarded_pass _ _ (header-bytes p t), read_change-bytes p t (version_one p h))
      (guarded_pass _ _ h)

encode-decode_change :
    (bytes : List ℕ) (p : ProfileChange)
    → All IsByte bytes
    → decode bytes ≡ ok p
    → IsWellTyped p × (encode p ≡ ok bytes)
unfolding encode decode
encode-decode_change bytes p b e =
    let (h, e') = guarded-passed (opening_tests bytes) _ e in
    let (g, read) = guarded-passed (change_tests (read_change bytes)) _ e' in
    let long : length bytes ≡ 65 = ==→eq (length bytes) 65 (not-false _ (or-false _ _ h.0).0) in
    let same : read_change bytes ≡ p = ok-injective read in
    rw (← same) (
      read_change-IsWellTyped bytes b long,
      guarded_pass _ _ g ∙ ap ok (change_bytes-read bytes b long h),
    )

-- A datagram of bytes decodes to a profile change exactly when it is the encoding of that change, and
-- the fields of the change are within their Rust types.
pub decode_iff_change :
    (bytes : List ℕ) (p : ProfileChange)
    → All IsByte bytes
    → (decode bytes ≡ ok p) ↔ (IsWellTyped p × (encode p ≡ ok bytes))
decode_iff_change bytes p b =
    (encode-decode_change bytes p b, λ (t, e). decode-encode_change bytes p t e)
