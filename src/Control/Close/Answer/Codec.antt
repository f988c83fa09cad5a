-- ===== src/Control/Close/Answer/Codec.antt =====
-- The datagrams of stream close answers.
use agora_link.Prelude.{
  ℕ, ◌≡◌, refl, ap, ◌∙◌, ◌↔◌, List, [], ◌∷◌, length, get_or, list_eq, list_eq→eq, not-false, ==→eq,
  true, false, ◌||◌, ◌==◌, not, All, AllPass, ok, guarded-passed, guarded_pass, ok-injective, arith,
}
use agora_link.Bytes.{IsByte, to_be_bytes, from_be_bytes-to_be_bytes, slice, All-get_or}
use agora_link.Control.Fields.{field-lt, rejoin, byte_of_slice, or-false}
use agora_link.Control.Close.Answer.{
  StreamCloseAck, IsWellTyped, stream_close_ack_magic, close_ack_tests, close_ack_bytes, encode,
  read_close_ack, opening_tests, decode,
}

module _ (a : StreamCloseAck) (t : IsWellTyped a) where
  read_close_ack-bytes : read_close_ack (close_ack_bytes a) ≡ a
  unfolding read_close_ack close_ack_bytes to_be_bytes
  read_close_ack-bytes = λ i. record {
    version = a.version;
    stream_id = a.stream_id;
    video_session_id = from_be_bytes-to_be_bytes 8 a.video_session_id t.video_session_id_u64 i;
    close_id = from_be_bytes-to_be_bytes 8 a.close_id t.close_id_u64 i;
  }

  close_ack_header-bytes : a.version ≡ 1 → AllPass (opening_tests (close_ack_bytes a))
  unfolding close_ack_bytes to_be_bytes
  close_ack_header-bytes v = (refl, (ap (λ n. not (n == 1) || false) v, tt))

module _ (bytes : List ℕ) (h : All IsByte bytes) (long : length bytes ≡ 24) where
  read_close_ack-IsWellTyped : IsWellTyped (read_close_ack bytes)
  unfolding read_close_ack
  read_close_ack-IsWellTyped = record {
    version_u8 = All-get_or bytes 4 h;
    stream_id_u8 = All-get_or bytes 5 h;
    video_session_id_u64 = field-lt 8 8 bytes h (omega arith);
    close_id_u64 = field-lt 8 16 bytes h (omega arith);
  }

  close_ack_bytes-read :
      AllPass (opening_tests bytes) → close_ack_bytes (read_close_ack bytes) ≡ bytes
  unfolding close_ack_bytes read_close_ack
  close_ack_bytes-read (first, (second, _)) =
      let zeros : list_eq (slice bytes 6 2) (0 ∷ 0 ∷ []) ≡ true =
        not-false _ (or-false _ _ second).1 in
      rejoin stream_close_ack_magic (get_or bytes 4 0) (get_or bytes 5 0) 0 0 (8 ∷ 8 ∷ []) bytes h
        (omega arith)
        (list_eq→eq (slice bytes 0 4) stream_close_ack_magic (not-false _ (or-false _ _ first).1))
        refl refl (byte_of_slice bytes 6 2 0 (0 ∷ 0 ∷ []) (omega arith) zeros)
        (byte_of_slice bytes 6 2 1 (0 ∷ 0 ∷ []) (omega arith) zeros)

close_ack_version_one : (a : StreamCloseAck) → AllPass (close_ack_tests a) → a.version ≡ 1
close_ack_version_one a h = ==→eq a.version 1 (not-false _ (or-false _ _ (or-false _ _ h.0).0).0)

pub decode-encode_close_ack :
    (bytes : List ℕ) (a : StreamCloseAck)
    → IsWellTyped a
    → encode a ≡ ok bytes
    → decode bytes ≡ ok a
unfolding encode decode
decode-encode_close_ack bytes a t e =
    let (h, written) = guarded-passed (close_ack_tests a) _ e in
    let same : close_ack_bytes a ≡ bytes = ok-injective written in
    rw
      (
        ← same,
        guarded_pass _ _ (close_ack_header-bytes a t (close_ack_version_one a h)),
        read_close_ack-bytes a t,
      )
      (guarded_pass _ _ h)

encode-decode_close_ack :
    (bytes : List ℕ) (a : StreamCloseAck)
    → All IsByte bytes
    → decode bytes ≡ ok a
    → IsWellTyped a × (encode a ≡ ok bytes)
unfolding encode decode
encode-decode_close_ack bytes a b e =
    let (h, e') = guarded-passed (opening_tests bytes) _ e in
    let (g, read) = guarded-passed (close_ack_tests (read_close_ack bytes)) _ e' in
    let long : length bytes ≡ 24 = ==→eq (length bytes) 24 (not-false _ (or-false _ _ h.0).0) in
    let same : read_close_ack bytes ≡ a = ok-injective read in
    rw (← same) (
      read_close_ack-IsWellTyped bytes b long,
      guarded_pass _ _ g ∙ ap ok (close_ack_bytes-read bytes b long h),
    )

-- A datagram of bytes decodes to a stream close answer exactly when it is the encoding of that
-- answer, and the fields of the answer are within their Rust types.
decode_iff_close_ack :
    (bytes : List ℕ) (a : StreamCloseAck)
    → All IsByte bytes
    → (decode bytes ≡ ok a) ↔ (IsWellTyped a × (encode a ≡ ok bytes))
decode_iff_close_ack bytes a b =
    (encode-decode_close_ack bytes a b, λ (t, e). decode-encode_close_ack bytes a t e)
