-- ===== src/Wire/Nack/RoundTrip.antt =====
-- NACK datagrams and the requests that they stand for, both ways.
use agora_link.Prelude.{
  ℕ, ◌*◌, ◌/◌, ◌%◌, ◌^◌, ◌≤◌, ◌<◌, ◌≡◌, refl, ap, ◌∙◌, List, [], ◌∷◌, ◌++◌, arith, length, take,
  drop, ok, guarded-passed, guarded_pass, AllPass, All, ltb, ◌==◌, ◌||◌, false,
}
use mathlib.Core.List.{map}
use agora_link.Bytes.{to_be_bytes, from_be_bytes, from_be_bytes-to_be_bytes, slice}
use agora_link.Wire.Nack.{
  PacketKey, NackPacket, KeyIsTyped, NackIsTyped, encode_item, encode_items, nack_header, encode,
  decode_item, chunks, nack_tests, decode,
}

decode-encode_item :
    (k : PacketKey) (rest : List ℕ)
    → KeyIsTyped k
    → (decode_item (take 10 (encode_item k ++ rest)) ≡ k) × (drop 10 (encode_item k ++ rest) ≡ rest)
unfolding decode_item encode_item to_be_bytes
decode-encode_item k rest (f, i) = (
  λ j. record {
    frame_id = from_be_bytes-to_be_bytes 8 k.frame_id f j;
    packet_index = from_be_bytes-to_be_bytes 2 k.packet_index i j;
  },
  refl,
)

length-encode_items : (items : List PacketKey) → length (encode_items items) ≡ length items * 10
unfolding encode_items encode_item to_be_bytes
length-encode_items [] = refl
length-encode_items (k ∷ items) = omega (arith, length-encode_items items)

chunks-encode_items :
    (items : List PacketKey)
    → All KeyIsTyped items
    → map decode_item (chunks (length items) 10 (encode_items items)) ≡ items
unfolding encode_items chunks
chunks-encode_items [] h = refl
chunks-encode_items (k ∷ items) h =
    let (a, b) = decode-encode_item k (encode_items items) h.0 in
    rw (b, a, chunks-encode_items items h.1)

count_in : (n : ℕ) → (n == 0 || ltb 64 n) ≡ false → (0 < n) × (n ≤ 64)
count_in n h = ground arith

-- What `decode` reads in a datagram with such a header.
module _ (session n : ℕ) (rest : List ℕ) (typed : session < 256 ^ 8) (few : n ≤ 64) where
  abbrev datagram : List ℕ
  unfolding nack_header to_be_bytes
  datagram = nack_header session n ++ rest

  read-session : from_be_bytes (slice datagram 5 8) ≡ session
  unfolding datagram
  read-session = from_be_bytes-to_be_bytes 8 session typed

  read-count : from_be_bytes (slice datagram 13 2) ≡ n
  unfolding datagram
  read-count = from_be_bytes-to_be_bytes 2 (n % 2 ^ 16) (omega arith) ∙ omega arith

  tests-pass : 0 < n → length rest ≡ n * 10 → AllPass (nack_tests datagram n)
  unfolding datagram
  tests-pass pos len = ground arith

-- Decoding an encoded request whose fields are within their Rust types gives the request back.
pub decode-encode_nack :
    (p : NackPacket) (bytes : List ℕ) → NackIsTyped p → encode p ≡ ok bytes → decode bytes ≡ ok p
unfolding encode decode datagram
decode-encode_nack p bytes typed e =
    let n : ℕ = length p.items in
    let body : List ℕ = encode_items p.items in
    let (few, written) = guarded-passed _ (ok (nack_header p.session_id n ++ body)) e in
    let (pos, le) = count_in n few.0 in
    let same : nack_header p.session_id n ++ body ≡ bytes = cc in
    let len : length body ≡ n * 10 = length-encode_items p.items in
    rw (← same, read-count p.session_id n body typed.0 le)
      (guarded_pass _ _ (tests-pass p.session_id n body typed.0 le pos len) ∙ λ i. ok (record {
        session_id = read-session p.session_id n body typed.0 le i;
        items =
            (ap (λ k. map decode_item (chunks k 10 body)) {x = length body / 10} {y = n}
                  (omega (arith, len))
                ∙ chunks-encode_items p.items typed.1)
              i;
      }))
