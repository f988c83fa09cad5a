-- ===== src/Control/Fields.antt =====
-- `push_u32`, `push_u64`, `read_u32` and `read_u64`: rows of big-endian fields behind the eight
-- bytes that open every control datagram.
use agora_link.Prelude.{
  ℕ, zero, suc, ◌+◌, ◌≤◌, ◌<◌, ◌^◌, ◌≡◌, refl, sym, ap, ap₂, ◌∙◌, List, [], ◌∷◌, ◌++◌, append_assoc,
  length, get_or, take, drop, All, Bool, true, false, list_eq, list_eq→eq, ◌≢◌, ◌||◌, arith,
  take-append-drop, drop-drop, drop-all,
}
use agora_link.Bytes.{
  IsByte, to_be_bytes, from_be_bytes, slice, to_be_bytes-from_be_bytes, from_be_bytes-lt,
  length-slice, All-slice,
}

-- A field is a width in bytes and a value; a field of width 1 is a `push` of a byte.
abbrev pub push_fields : List (ℕ × ℕ) → List ℕ
push_fields [] = []
push_fields ((w, v) ∷ fields) = to_be_bytes w v ++ push_fields fields

abbrev pub read_u32 : List ℕ → ℕ → ℕ
read_u32 bytes offset = from_be_bytes (slice bytes offset 4)

abbrev pub read_u64 : List ℕ → ℕ → ℕ
read_u64 bytes offset = from_be_bytes (slice bytes offset 8)

pub push_fields-append :
    (fs gs : List (ℕ × ℕ)) → push_fields (fs ++ gs) ≡ push_fields fs ++ push_fields gs
push_fields-append [] gs = refl
push_fields-append ((w, v) ∷ fs) gs =
    ap (λ xs. to_be_bytes w v ++ xs) (push_fields-append fs gs)
    ∙ sym (append_assoc (to_be_bytes w v) (push_fields fs) (push_fields gs))

-- A byte that is read as a field of width 1.
abbrev pub read_u8 : List ℕ → ℕ → ℕ
read_u8 bytes offset = from_be_bytes (slice bytes offset 1)

-- The fields of the given widths, from offset `start` on.
abbrev pub read_all : List ℕ → List ℕ → ℕ → List (ℕ × ℕ)
read_all [] bytes start = []
read_all (w ∷ ws) bytes start =
    (w, from_be_bytes (slice bytes start w)) ∷ read_all ws bytes (start + w)

abbrev pub sum : List ℕ → ℕ
sum [] = 0
sum (w ∷ ws) = w + sum ws

-- A row of fields that is read to the end of the bytes and written again is those bytes.
push_fields-read_all :
    (ws : List ℕ) (bytes : List ℕ) (start : ℕ)
    → All IsByte bytes
    → start + sum ws ≡ length bytes
    → push_fields (read_all ws bytes start) ≡ drop start bytes
push_fields-read_all [] bytes start h e = sym (drop-all start bytes (omega arith))
push_fields-read_all (w ∷ ws) bytes start h e =
    ap₂ (λ (xs ys : List ℕ). xs ++ ys)
      (to_be_bytes-from_be_bytes w (slice bytes start w) (length-slice bytes start w (omega arith))
        (All-slice bytes start w h))
      (push_fields-read_all ws bytes (start + w) h (omega arith) ∙ sym (drop-drop start w bytes))
    ∙ take-append-drop w (drop start bytes)

pub field-lt :
    (w start : ℕ) (bytes : List ℕ)
    → All IsByte bytes
    → start + w ≤ length bytes
    → from_be_bytes (slice bytes start w) < 256 ^ w
field-lt w start bytes h e =
    from_be_bytes-lt w (slice bytes start w) (length-slice bytes start w e)
      (All-slice bytes start w h)

-- The eight bytes that open a datagram, and the rest.
opening :
    (bytes : List ℕ)
    → 8 ≤ length bytes
    → bytes
      ≡ slice bytes 0 4
        ++ get_or bytes 4 0 ∷ get_or bytes 5 0 ∷ get_or bytes 6 0 ∷ get_or bytes 7 0 ∷ drop 8 bytes
opening [] h = absurd (omega arith)
opening (a ∷ []) h = absurd (omega arith)
opening (a ∷ b ∷ []) h = absurd (omega arith)
opening (a ∷ b ∷ c ∷ []) h = absurd (omega arith)
opening (a ∷ b ∷ c ∷ d ∷ []) h = absurd (omega arith)
opening (a ∷ b ∷ c ∷ d ∷ e ∷ []) h = absurd (omega arith)
opening (a ∷ b ∷ c ∷ d ∷ e ∷ f ∷ []) h = absurd (omega arith)
opening (a ∷ b ∷ c ∷ d ∷ e ∷ f ∷ g ∷ []) h = absurd (omega arith)
opening (a ∷ b ∷ c ∷ d ∷ e ∷ f ∷ g ∷ i ∷ rest) h = refl

-- A datagram is its opening bytes and its fields, written again.
pub rejoin :
    (m : List ℕ) (b4 b5 b6 b7 : ℕ) (ws : List ℕ) (bytes : List ℕ)
    → All IsByte bytes
    → 8 + sum ws ≡ length bytes
    → slice bytes 0 4 ≡ m
    → get_or bytes 4 0 ≡ b4
    → get_or bytes 5 0 ≡ b5
    → get_or bytes 6 0 ≡ b6
    → get_or bytes 7 0 ≡ b7
    → m ++ b4 ∷ b5 ∷ b6 ∷ b7 ∷ push_fields (read_all ws bytes 8) ≡ bytes
rejoin m b4 b5 b6 b7 ws bytes h e em e4 e5 e6 e7 =
    rw (← em, ← e4, ← e5, ← e6, ← e7, push_fields-read_all ws bytes 8 h e)
      (sym (opening bytes (omega arith)))

get_or-take : (n i : ℕ) (xs : List ℕ) → i < n → get_or (take n xs) i 0 ≡ get_or xs i 0
get_or-take zero i xs h = absurd (omega arith)
get_or-take (suc n) i [] h = refl
get_or-take (suc n) zero (x ∷ xs) h = refl
get_or-take (suc n) (suc i) (x ∷ xs) h = get_or-take n i xs (omega arith)

get_or-drop : (n i : ℕ) (xs : List ℕ) → get_or (drop n xs) i 0 ≡ get_or xs (n + i) 0
get_or-drop zero i xs = ap (λ k. get_or xs k 0) {y = 0 + i} (omega arith)
get_or-drop (suc n) i [] = refl
get_or-drop (suc n) i (x ∷ xs) =
    get_or-drop n i xs
    ∙ ap (λ k. get_or (x ∷ xs) k 0) {x = suc (n + i)} {y = suc n + i} (omega arith)

-- A byte of a slice that is known.
pub byte_of_slice :
    (bytes : List ℕ) (start n i : ℕ) (l : List ℕ)
    → i < n
    → list_eq (slice bytes start n) l ≡ true
    → get_or bytes (start + i) 0 ≡ get_or l i 0
byte_of_slice bytes start n i l lt e =
    sym (get_or-take n i (drop start bytes) lt ∙ get_or-drop start i bytes)
    ∙ ap (λ xs. get_or xs i 0) (list_eq→eq (slice bytes start n) l e)

true-ne-false : true ≢ false
true-ne-false h = cc

-- What a failed test says of its parts.
pub or-false : (a b : Bool) → a || b ≡ false → (a ≡ false) × (b ≡ false)
or-false true b h = absurd (true-ne-false h)
or-false false b h = (refl, h)
