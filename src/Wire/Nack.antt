-- ===== src/Wire/Nack.antt =====
-- NACK requests: `PacketKey` and `NackPacket` of rust-native/agoralink_media/src/repair.rs.
pub mod RoundTrip
pub mod Canonical
use agora_link.Prelude.{
  ℕ, zero, suc, ◌+◌, ◌*◌, ◌/◌, ◌%◌, ◌^◌, ◌<◌, List, [], ◌∷◌, ◌++◌, length, get_or, list_eq, not,
  ◌||◌, ltb, ◌==◌, Bool, Result, ok, guarded, All, take, drop,
}
use mathlib.Core.List.{map}
use agora_link.Bytes.{to_be_bytes, from_be_bytes, slice}

abbrev max_nack_items : ℕ
max_nack_items = 64

abbrev pub nack_magic : List ℕ
nack_magic = b'N' ∷ b'A' ∷ b'C' ∷ b'K' ∷ []

abbrev nack_version : ℕ
nack_version = 1

abbrev nack_header_len : ℕ
nack_header_len = 15

abbrev nack_item_len : ℕ
nack_item_len = 10

pub record PacketKey : Type 0 where
  pub frame_id : ℕ
  pub packet_index : ℕ

pub record NackPacket : Type 0 where
  pub session_id : ℕ
  pub items : List PacketKey

-- The ranges of the Rust field types.
abbrev pub KeyIsTyped : PacketKey → Type 0
KeyIsTyped k = (k.frame_id < 256 ^ 8) × (k.packet_index < 256 ^ 2)

abbrev pub NackIsTyped : NackPacket → Type 0
NackIsTyped p = (p.session_id < 256 ^ 8) × All KeyIsTyped p.items

pub data NackError : Type 0 where
  item_count_limit not_nack invalid_item_count length_mismatch : NackError
  unsupported_version : ℕ → NackError

unfoldable pub encode_item : PacketKey → List ℕ
encode_item item = to_be_bytes 8 item.frame_id ++ to_be_bytes 2 item.packet_index

unfoldable pub encode_items : List PacketKey → List ℕ
encode_items [] = []
encode_items (item ∷ items) = encode_item item ++ encode_items items

unfoldable pub nack_header : ℕ → ℕ → List ℕ
nack_header session_id count =
    nack_magic ++ nack_version ∷ to_be_bytes 8 session_id ++ to_be_bytes 2 (count % 2 ^ 16)

unfoldable pub encode : NackPacket → Result NackError (List ℕ)
encode p =
    guarded ((length p.items == 0 || ltb max_nack_items (length p.items), item_count_limit) ∷ [])
      (ok (nack_header p.session_id (length p.items) ++ encode_items p.items))

unfoldable pub decode_item : List ℕ → PacketKey
decode_item chunk = record {
  frame_id = from_be_bytes (take 8 chunk);
  packet_index = from_be_bytes (slice chunk 8 2);
}

-- `chunks_exact(size)`: as many whole chunks as there are, in order.
unfoldable pub chunks : ℕ → ℕ → List ℕ → List (List ℕ)
chunks zero size bytes = []
chunks (suc n) size bytes = take size bytes ∷ chunks n size (drop size bytes)

unfoldable pub chunks_exact : ℕ → List ℕ → List (List ℕ)
unfolding chunks
chunks_exact size bytes = chunks (length bytes / size) size bytes

abbrev pub nack_tests : List ℕ → ℕ → List (Bool × NackError)
nack_tests bytes count =
    (ltb (length bytes) nack_header_len || not (list_eq (slice bytes 0 4) nack_magic), not_nack)
    ∷ (not (get_or bytes 4 0 == nack_version), unsupported_version (get_or bytes 4 0))
    ∷ (count == 0 || ltb max_nack_items count, invalid_item_count)
    ∷ (not (length bytes == nack_header_len + count * nack_item_len), length_mismatch)
    ∷ []

unfoldable pub decode : List ℕ → Result NackError NackPacket
unfolding decode_item chunks_exact
decode bytes =
    let count = from_be_bytes (slice bytes 13 2) in
    guarded (nack_tests bytes count) (
      ok (record {
        session_id = from_be_bytes (slice bytes 5 8);
        items = map decode_item (chunks_exact nack_item_len (drop nack_header_len bytes));
      }))
