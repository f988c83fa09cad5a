-- ===== src/Wire/Nack/Canonical.antt =====
-- A NACK datagram that the decoder accepts is the encoding of the request that it returns.
use agora_link.Prelude.{
  ℕ, zero, suc, ◌+◌, ◌*◌, ◌/◌, ◌%◌, ◌≤◌, ◌<◌, ◌≡◌, refl, sym, ap, ◌∙◌, List, [], ◌∷◌, arith, length,
  take, drop, take-append-drop, length-drop, length-take, take-all, ltb_false→le, AllPass,
  ok-injective, get_or, ok, guarded-passed, guarded_pass, AllPass, ok-injective, All, not-false,
  ==→eq, list_eq→eq, ltb, ◌==◌, ◌||◌, Bool, false,
}
use mathlib.Core.List.{map}
use agora_link.Bytes.{
  IsByte, from_be_bytes, to_be_bytes-from_be_bytes, slice, length-slice, All-slice, All-take,
  All-drop, slice-append, slice-one, from_be_bytes-lt,
}
use agora_link.Wire.Nack.{
  PacketKey, NackPacket, KeyIsTyped, NackIsTyped, encode_item, encode_items, nack_header, encode,
  decode_item, chunks, nack_tests, nack_magic, decode,
}

module _ (chunk : List ℕ) (whole : length chunk ≡ 10) (bytes : All IsByte chunk) where
  encode-decode_item : encode_item (decode_item chunk) ≡ chunk
  unfolding encode_item decode_item
  encode-decode_item =
      rw
        (
          to_be_bytes-from_be_bytes 8 (slice chunk 0 8) (length-slice chunk 0 8 (omega arith))
              (All-slice chunk 0 8 bytes),
          to_be_bytes-from_be_bytes 2 (slice chunk 8 2) (length-slice chunk 8 2 (omega arith))
              (All-slice chunk 8 2 bytes),
        )
        (sym (slice-append chunk 0 8 2) ∙ take-all 10 chunk (omega arith))

  decode_item-KeyIsTyped : KeyIsTyped (decode_item chunk)
  unfolding decode_item
  decode_item-KeyIsTyped = (
    from_be_bytes-lt 8 _ (length-slice chunk 0 8 (omega arith)) (All-slice chunk 0 8 bytes),
    from_be_bytes-lt 2 _ (length-slice chunk 8 2 (omega arith)) (All-slice chunk 8 2 bytes),
  )

-- What `n` whole chunks of item bytes decode to.
record Items (n : ℕ) (bytes : List ℕ) (items : List PacketKey) : Type 0 where
  written : encode_items items ≡ bytes
  count : length items ≡ n
  typed : All KeyIsTyped items

decode_chunks-Items :
    (n : ℕ) (bytes : List ℕ)
    → length bytes ≡ n * 10
    → All IsByte bytes
    → Items n bytes (map decode_item (chunks n 10 bytes))
unfolding chunks encode_items
decode_chunks-Items zero [] len h = record { written = refl; count = refl; typed = tt }
decode_chunks-Items zero (x ∷ xs) len h = absurd (omega arith)
decode_chunks-Items (suc n) bytes len h =
    let rest : Items n (drop 10 bytes) (map decode_item (chunks n 10 (drop 10 bytes))) =
      decode_chunks-Items n (drop 10 bytes) (omega (arith, length-drop 10 bytes))
        (All-drop IsByte 10 bytes h) in
    let whole : length (take 10 bytes) ≡ 10 = omega (arith, length-take 10 bytes) in
    let hd : All IsByte (take 10 bytes) = All-take IsByte 10 bytes h in
    record {
      written =
          rw (encode-decode_item (take 10 bytes) whole hd, rest.written)
            (take-append-drop 10 bytes);
      count = ap suc rest.count;
      typed = (decode_item-KeyIsTyped (take 10 bytes) whole hd, rest.typed);
    }

pos_count : (n : ℕ) → (n == 0 || ltb 64 n) ≡ false → (0 < n) × (n ≤ 64)
pos_count n h = ground arith

-- What the tests of `decode` leave.
record Accepted (bytes : List ℕ) (n : ℕ) : Type 0 where
  long : 15 ≤ length bytes
  magic_ok : slice bytes 0 4 ≡ nack_magic
  version_ok : get_or bytes 4 0 ≡ 1
  few : (n == 0 || ltb 64 n) ≡ false
  exact : length bytes ≡ 15 + n * 10

either_false : (a b : Bool) → (a || b) ≡ false → (a ≡ false) × (b ≡ false)
either_false a b h = ground arith

accepted : (bytes : List ℕ) (n : ℕ) → AllPass (nack_tests bytes n) → Accepted bytes n
accepted bytes n h =
    let (short, bad) = either_false _ _ h.0 in
    record {
      long = ltb_false→le (length bytes) 15 short;
      magic_ok = list_eq→eq (slice bytes 0 4) nack_magic (not-false _ bad);
      version_ok = ==→eq _ 1 (not-false _ h.1.0);
      few = h.1.1.0;
      exact = ==→eq _ _ (not-false _ h.1.1.1.0);
    }

header-read :
    (bytes : List ℕ) (n : ℕ)
    → from_be_bytes (slice bytes 13 2) ≡ n
    → All IsByte bytes
    → Accepted bytes n
    → nack_header (from_be_bytes (slice bytes 5 8)) n ≡ take 15 bytes
unfolding nack_header
header-read bytes n e h a = rw (
  to_be_bytes-from_be_bytes 8 _ (length-slice bytes 5 8 (omega (arith, a.long)))
      (All-slice bytes 5 8 h),
  same,
  ← e,
  to_be_bytes-from_be_bytes 2 _ (length-slice bytes 13 2 (omega (arith, a.long)))
      (All-slice bytes 13 2 h),
  slice-append bytes 0 13 2,
  slice-append bytes 0 5 8,
  slice-append bytes 0 4 1,
  a.magic_ok,
  slice-one bytes 4 (omega (arith, a.long)),
  a.version_ok,
)
  where
    same : n % 65536 ≡ n
    same = omega (arith, (pos_count n a.few).1)

abbrev request : List ℕ → ℕ → NackPacket
request bytes n = record {
  session_id = from_be_bytes (slice bytes 5 8);
  items = map decode_item (chunks n 10 (drop 15 bytes));
}

-- A datagram of bytes that decodes is the encoding of the request that it decodes to, bit for bit,
-- and the fields of that request are within their Rust types.
pub encode-decode_nack :
    (bytes : List ℕ) (p : NackPacket)
    → All IsByte bytes
    → decode bytes ≡ ok p
    → NackIsTyped p × (encode p ≡ ok bytes)
unfolding decode encode
encode-decode_nack bytes p h e =
    let n : ℕ = from_be_bytes (slice bytes 13 2) in
    let (passed, e') = guarded-passed (nack_tests bytes n) _ e in
    let a : Accepted bytes n = accepted bytes n passed in
    let body : List ℕ = drop 15 bytes in
    let len : length body ≡ n * 10 = omega (arith, a.exact, length-drop 15 bytes) in
    let its : Items n body (map decode_item (chunks n 10 body)) =
      decode_chunks-Items n body len (All-drop IsByte 15 bytes h) in
    let rounds : length body / 10 ≡ n = omega (arith, len) in
    let same : request bytes n ≡ p = ok-injective (rw rounds at e') in
    rw (← same) (
      (
        from_be_bytes-lt 8 _ (length-slice bytes 5 8 (omega (arith, a.long)))
            (All-slice bytes 5 8 h),
        its.typed,
      ),
      guarded_pass _ _ (rw its.count a.few, tt)
          ∙ ap ok (
              rw (its.count, header-read bytes n refl h a, its.written)
                (take-append-drop 15 bytes)),
    )
