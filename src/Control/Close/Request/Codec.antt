-- ===== src/Control/Close/Request/Codec.antt =====
-- The datagrams of stream close requests.
use agora_link.Prelude.{
  ℕ, ◌≡◌, refl, ap, ◌∙◌, ◌↔◌, List, [], ◌∷◌, length, get_or, list_eq→eq, not-false, ==→eq, false,
  ◌||◌, ◌==◌, not, All, AllPass, ok, guarded-passed, guarded_pass, ok-injective, arith,
}
use agora_link.Bytes.{IsByte, to_be_bytes, from_be_bytes-to_be_bytes, slice, All-get_or}
use agora_link.Control.Fields.{field-lt, rejoin, or-false}
use agora_link.Control.Close.Request.{
  StreamClose, IsWellTyped, stream_close_magic, close_tests, close_bytes, encode, read_close,
  opening_tests, decode,
}

module _ (a : StreamClose) (t : IsWellTyped a) where
  read_close-bytes : read_close (close_bytes a) ≡ a
  unfolding read_close close_bytes to_be_bytes
  read_close-bytes = λ i. record {
    version = a.version;
    stream_id = a.stream_id;
    reason_code = a.reason_code;
    video_session_id = from_be_bytes-to_be_bytes 8 a.video_session_id t.video_session_id_u64 i;
    close_id = from_be_bytes-to_be_bytes 8 a.close_id t.close_id_u64 i;
    timestamp_us = from_be_bytes-to_be_bytes 8 a.timestamp_us t.timestamp_us_u64 i;
    last_frame_id = from_be_bytes-to_be_bytes 8 a.last_frame_id t.last_frame_id_u64 i;
  }

  close_header-bytes : a.version ≡ 1 → AllPass (opening_tests (close_bytes a))
  unfolding close_bytes to_be_bytes
  close_header-bytes v = (refl, (ap (λ n. not (n == 1) || false) v, tt))

module _ (bytes : List ℕ) (h : All IsByte bytes) (long : length bytes ≡ 40) where
  read_close-IsWellTyped : IsWellTyped (read_close bytes)
  unfolding read_close
  read_close-IsWellTyped = record {
    version_u8 = All-get_or bytes 4 h;
    stream_id_u8 = All-get_or bytes 5 h;
    reason_code_u8 = All-get_or bytes 6 h;
    video_session_id_u64 = field-lt 8 8 bytes h (omega arith);
    close_id_u64 = field-lt 8 16 bytes h (omega arith);
    timestamp_us_u64 = field-lt 8 24 bytes h (omega arith);
    last_frame_id_u64 = field-lt 8 32 bytes h (omega arith);
  }

  close_bytes-read : AllPass (opening_tests bytes) → close_bytes (read_close bytes) ≡ bytes
  unfolding close_bytes read_close
  close_bytes-read (first, (second, _)) =
      rejoin stream_close_magic (get_or bytes 4 0) (get_or bytes 5 0) (get_or bytes 6 0) 0
        (8 ∷ 8 ∷ 8 ∷ 8 ∷ []) bytes h (omega arith)
        (list_eq→eq (slice bytes 0 4) stream_close_magic (not-false _ (or-false _ _ first).1)) refl
        refl refl (==→eq (get_or bytes 7 0) 0 (not-false _ (or-false _ _ second).1))

close_version_one : (a : StreamClose) → AllPass (close_tests a) → a.version ≡ 1
close_version_one a h =
    ==→eq a.version 1 (not-false _ (or-false _ _ (or-false _ _ (or-false _ _ h.0).0).0).0)

decode-encode_close :
    (bytes : List ℕ) (a : StreamClose) → IsWellTyped a → encode a ≡ ok bytes → decode bytes ≡ ok a
unfolding encode decode
decode-encode_close bytes a t e =
    let (h, written) = guarded-passed (close_tests a) _ e in
    let same : close_bytes a ≡ bytes = ok-injective written in
    rw
      (
        ← same,
        guarded_pass _ _ (close_header-bytes a t (close_version_one a h)),
        read_close-bytes a t,
      )
      (guarded_pass _ _ h)

encode-decode_close :
    (bytes : List ℕ) (a : StreamClose)
    → All IsByte bytes
    → decode bytes ≡ ok a
    → IsWellTyped a × (encode a ≡ ok bytes)
unfolding encode decode
encode-decode_close bytes a b e =
    let (h, e') = guarded-passed (opening_tests bytes) _ e in
    let (g, read) = guarded-passed (close_tests (read_close bytes)) _ e' in
    let long : length bytes ≡ 40 = ==→eq (length bytes) 40 (not-false _ (or-false _ _ h.0).0) in
    let same : read_close bytes ≡ a = ok-injective read in
    rw (← same) (
      read_close-IsWellTyped bytes b long,
      guarded_pass _ _ g ∙ ap ok (close_bytes-read bytes b long h),
    )

-- A datagram of bytes decodes to a stream close request exactly when it is the encoding of that
-- request, and the fields of the request are within their Rust types.
pub decode_iff_close :
    (bytes : List ℕ) (a : StreamClose)
    → All IsByte bytes
    → (decode bytes ≡ ok a) ↔ (IsWellTyped a × (encode a ≡ ok bytes))
decode_iff_close bytes a b =
    (encode-decode_close bytes a b, λ (t, e). decode-encode_close bytes a t e)
