-- ===== src/Wire/Media/Canonical.antt =====
-- A datagram that the AGM1 decoder accepts is the encoding of the packet that it returns.
use agora_link.Prelude.{
  ℕ, ◌+◌, ◌%◌, ◌^◌, ◌≤◌, ◌<◌, ◌≡◌, refl, sym, ap, ◌∙◌, List, ◌++◌, arith, length, take, take-add,
  guarded-passed, AllPass, ltb_false→le, leb_false→lt, ==_false→pos, not-false, ==→eq, list_eq→eq,
  ok, get_or, All,
}
use agora_link.Bytes.{
  to_be_bytes, from_be_bytes, slice, IsByte, length-slice, All-slice, All-get_or, from_be_bytes-lt,
  to_be_bytes-from_be_bytes, slice-append, slice-one,
}
use agora_link.Wire.Media.{
  header_tests, field_tests, MediaPacket, IsWellTyped, header, header_len, read_fields,
  encode_with_udp_payload_size, decode, max_video_packet_count, max_udp_payload_size, magic,
}
use agora_link.Wire.Media.RoundTrip.{IsEncodable, encode_of_IsEncodable}

module _ (buf : List ℕ) (long : 38 ≤ length buf) (bytes : All IsByte buf) where
  field-IsByte : (w start : ℕ) → start + w ≤ 38 → from_be_bytes (slice buf start w) < 256 ^ w
  field-IsByte w start h =
      from_be_bytes-lt w (slice buf start w) (length-slice buf start w (omega arith))
        (All-slice buf start w bytes)

  field-bytes :
      (w start : ℕ)
      → start + w ≤ 38
      → to_be_bytes w (from_be_bytes (slice buf start w)) ≡ slice buf start w
  field-bytes w start h =
      to_be_bytes-from_be_bytes w (slice buf start w) (length-slice buf start w (omega arith))
        (All-slice buf start w bytes)

  header-read :
      (n : ℕ)
      → from_be_bytes (slice buf 36 2) ≡ n
      → n < 65536
      → slice buf 0 4 ≡ magic
      → get_or buf 4 0 ≡ 1
      → header (read_fields buf n) n ≡ take 38 buf
  unfolding header read_fields
  header-read n e small m v = rw (
    field-bytes 2 6 (omega arith),
    field-bytes 8 8 (omega arith),
    field-bytes 8 16 (omega arith),
    field-bytes 2 24 (omega arith),
    field-bytes 2 26 (omega arith),
    field-bytes 8 28 (omega arith),
    same,
    ← e,
    field-bytes 2 36 (omega arith),
    slice-append buf 0 36 2,
    slice-append buf 0 28 8,
    slice-append buf 0 26 2,
    slice-append buf 0 24 2,
    slice-append buf 0 16 8,
    slice-append buf 0 8 8,
    slice-append buf 0 6 2,
    slice-append buf 0 5 1,
    slice-append buf 0 4 1,
    m,
    slice-one buf 4 (omega arith),
    v,
    slice-one buf 5 (omega arith),
  )
    where
      same : n % 65536 ≡ n
      same = omega arith

-- What the tests of `decode` leave.
record Accepted (buf : List ℕ) (n : ℕ) : Type 0 where
  long : 38 ≤ length buf
  short : length buf ≤ 1472
  magic_ok : slice buf 0 4 ≡ magic
  version_ok : get_or buf 4 0 ≡ 1
  count_pos : 0 < (read_fields buf n).packet_count
  count_max : (read_fields buf n).packet_count ≤ max_video_packet_count
  index_lt : (read_fields buf n).packet_index < (read_fields buf n).packet_count
  len_max : n ≤ 1434
  len_in : 38 + n ≤ length buf

accepted :
    (buf : List ℕ) (n : ℕ)
    → AllPass (header_tests buf)
    → AllPass (field_tests (read_fields buf n) n (length buf))
    → Accepted buf n
accepted buf n h f = record {
  long = ltb_false→le (length buf) 38 h.1.0;
  short = ltb_false→le 1472 (length buf) h.0;
  magic_ok = list_eq→eq (slice buf 0 4) magic (not-false _ h.1.1.0);
  version_ok = ==→eq _ 1 (not-false _ h.1.1.1.0);
  count_pos = ==_false→pos _ f.0;
  count_max = ltb_false→le _ _ f.1.0;
  index_lt = leb_false→lt _ _ f.1.1.0;
  len_max = ltb_false→le _ _ f.1.1.1.0;
  len_in = ltb_false→le _ _ f.1.1.1.1.0;
}

fields-IsWellTyped :
    (buf : List ℕ) (n : ℕ) → All IsByte buf → Accepted buf n → IsWellTyped (read_fields buf n)
unfolding read_fields
fields-IsWellTyped buf n bytes a = record {
  stream_id_u8 = All-get_or buf 5 bytes;
  flags_u16 = field-IsByte buf a.long bytes 2 6 (omega arith);
  session_id_u64 = field-IsByte buf a.long bytes 8 8 (omega arith);
  frame_id_u64 = field-IsByte buf a.long bytes 8 16 (omega arith);
  packet_index_u16 = field-IsByte buf a.long bytes 2 24 (omega arith);
  packet_count_u16 = field-IsByte buf a.long bytes 2 26 (omega arith);
  timestamp_ms_u64 = field-IsByte buf a.long bytes 8 28 (omega arith);
  payload_bytes = All-slice buf 38 n bytes;
}

fields-IsEncodable :
    (buf : List ℕ) (n : ℕ)
    → Accepted buf n
    → IsEncodable (read_fields buf n) 1472 × (length (read_fields buf n).payload ≡ n)
unfolding read_fields
fields-IsEncodable buf n a =
    let len : length (slice buf 38 n) ≡ n = length-slice buf 38 n a.len_in in
    (
      record {
        size_min = omega arith;
        size_max = omega arith;
        payload_fits = omega (arith, a.len_max, len);
        count_pos = a.count_pos;
        count_max = a.count_max;
        index_lt = a.index_lt;
      },
      len,
    )

written-back :
    (buf : List ℕ) (n : ℕ)
    → from_be_bytes (slice buf 36 2) ≡ n
    → All IsByte buf
    → Accepted buf n
    → header (read_fields buf n) n ++ (read_fields buf n).payload ≡ take (38 + n) buf
unfolding read_fields
written-back buf n e bytes a =
    rw (header-read buf a.long bytes n e (omega (arith, a.len_max)) a.magic_ok a.version_ok)
      (sym (take-add 38 n buf))

-- A datagram of bytes that the decoder accepts holds exactly the encoding of the packet that it
-- returns, followed by bytes that it ignores; the packet's fields are within their Rust types.
pub encode-decode :
    (buf : List ℕ) (p : MediaPacket)
    → All IsByte buf
    → decode buf ≡ ok p
    → IsWellTyped p
      × (encode_with_udp_payload_size p max_udp_payload_size
          ≡ ok (take (header_len + length p.payload) buf))
unfolding decode
encode-decode buf p bytes e =
    let n : ℕ = from_be_bytes (slice buf 36 2) in
    let (h, e') = guarded-passed (header_tests buf) _ e in
    let (f, e'') = guarded-passed (field_tests (read_fields buf n) n (length buf)) _ e' in
    let a : Accepted buf n = accepted buf n h f in
    let same : read_fields buf n ≡ p = cc in
    let (fits, len) = fields-IsEncodable buf n a in
    rw (← same) (
      fields-IsWellTyped buf n bytes a,
      encode_of_IsEncodable (read_fields buf n) 1472 fits
          ∙ ap ok (rw len (written-back buf n refl bytes a)),
    )
