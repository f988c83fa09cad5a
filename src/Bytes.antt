-- ===== src/Bytes.antt =====
-- Big-endian integers in byte slices: Rust's `to_be_bytes`, `from_be_bytes` and slice indexing, as
-- the packet codecs of rust-native/agoralink_media use them. A byte is a number below 256.
use agora_link.Prelude.{
  ℕ, zero, suc, ◌+◌, ◌*◌, ◌/◌, ◌%◌, ◌^◌, ◌<◌, ◌≡◌, refl, ap, ap₂, ◌∙◌, ◌≤◌, List, [], ◌∷◌, ◌++◌,
  arith, length, length-append, get_or, take, drop, All, length-take, length-drop, take-add,
  mul_mono, drop-drop,
}
use mathlib.Core.Path.{subst}
use native.Mathlib.Nat.{pow-suc}

abbrev pub IsByte : ℕ → Type 0
IsByte b = b < 256

-- `to_be_bytes` of an unsigned integer of `w` bytes.
unfoldable pub to_be_bytes : ℕ → ℕ → List ℕ
to_be_bytes zero n = []
to_be_bytes (suc w) n = to_be_bytes w (n / 256) ++ n % 256 ∷ []

be_from : ℕ → List ℕ → ℕ
be_from acc [] = acc
be_from acc (b ∷ bs) = be_from (acc * 256 + b) bs

unfoldable pub from_be_bytes : List ℕ → ℕ
unfolding be_from
from_be_bytes bs = be_from 0 bs

-- `bytes[start..end]` with `len = end - start`; every use stands behind a length test.
abbrev pub slice : List ℕ → ℕ → ℕ → List ℕ
slice bytes start len = take len (drop start bytes)

be_from-append :
    (acc : ℕ) (xs : List ℕ) (b : ℕ) → be_from acc (xs ++ b ∷ []) ≡ be_from acc xs * 256 + b
unfolding be_from
be_from-append acc [] b = refl
be_from-append acc (x ∷ xs) b = be_from-append (acc * 256 + x) xs b

length-to_be_bytes : (w n : ℕ) → length (to_be_bytes w n) ≡ w
unfolding to_be_bytes
length-to_be_bytes zero n = refl
length-to_be_bytes (suc w) n =
    omega (
      arith,
      length-append (to_be_bytes w (n / 256)) (n % 256 ∷ []),
      length-to_be_bytes w (n / 256),
    )

pub All-append {ℓ κ} :
    {A : Type ℓ} (P : A → Type κ) (xs ys : List A) → All P xs → All P ys → All P (xs ++ ys)
All-append P [] ys hx hy = hy
All-append P (x ∷ xs) ys hx hy = (hx.0, All-append P xs ys hx.1 hy)

to_be_bytes-IsByte : (w n : ℕ) → All IsByte (to_be_bytes w n)
unfolding to_be_bytes
to_be_bytes-IsByte zero n = tt
to_be_bytes-IsByte (suc w) n =
    All-append IsByte (to_be_bytes w (n / 256)) (n % 256 ∷ []) (to_be_bytes-IsByte w (n / 256))
      (omega arith)

div_bound : (w n : ℕ) → n < 256 ^ suc w → n / 256 < 256 ^ w
div_bound w n h = omega (arith, pow-suc 256 w)

pub from_be_bytes-to_be_bytes : (w n : ℕ) → n < 256 ^ w → from_be_bytes (to_be_bytes w n) ≡ n
unfolding to_be_bytes from_be_bytes
from_be_bytes-to_be_bytes zero n h = omega arith
from_be_bytes-to_be_bytes (suc w) n h = omega (
  arith,
  be_from-append 0 (to_be_bytes w (n / 256)) (n % 256),
  from_be_bytes-to_be_bytes w (n / 256) (div_bound w n h),
)

pub All-take {ℓ κ} :
    {A : Type ℓ} (P : A → Type κ) (n : ℕ) (xs : List A) → All P xs → All P (take n xs)
All-take P zero xs h = tt
All-take P (suc n) [] h = tt
All-take P (suc n) (x ∷ xs) h = (h.0, All-take P n xs h.1)

pub All-drop {ℓ κ} :
    {A : Type ℓ} (P : A → Type κ) (n : ℕ) (xs : List A) → All P xs → All P (drop n xs)
All-drop P zero xs h = h
All-drop P (suc n) [] h = tt
All-drop P (suc n) (x ∷ xs) h = All-drop P n xs h.1

pub All-slice :
    (bytes : List ℕ) (start len : ℕ) → All IsByte bytes → All IsByte (slice bytes start len)
All-slice bytes start len h = All-take IsByte len (drop start bytes) (All-drop IsByte start bytes h)

pub All-get_or : (bytes : List ℕ) (i : ℕ) → All IsByte bytes → get_or bytes i 0 < 256
All-get_or [] i h = omega arith
All-get_or (x ∷ xs) zero h = h.0
All-get_or (x ∷ xs) (suc i) h = All-get_or xs i h.1

pub length-slice :
    (bytes : List ℕ) (start len : ℕ)
    → start + len ≤ length bytes
    → length (slice bytes start len) ≡ len
length-slice bytes start len h =
    omega (arith, length-take len (drop start bytes), length-drop start bytes)

-- Two neighbouring slices make one.
pub slice-append :
    (bytes : List ℕ) (start a b : ℕ)
    → slice bytes start (a + b) ≡ slice bytes start a ++ slice bytes (start + a) b
slice-append bytes start a b = rw (take-add a b (drop start bytes), drop-drop start a bytes)

-- A slice of one byte is the byte that indexing reads.
pub slice-one :
    (bytes : List ℕ) (i : ℕ) → i < length bytes → slice bytes i 1 ≡ get_or bytes i 0 ∷ []
slice-one [] i h = absurd (omega arith)
slice-one (x ∷ xs) zero h = refl
slice-one (x ∷ xs) (suc i) h = slice-one xs i (omega arith)

be_from-lt :
    (w acc : ℕ) (xs : List ℕ) → length xs ≡ w → All IsByte xs → be_from acc xs < (acc + 1) * 256 ^ w
unfolding be_from
be_from-lt zero acc [] e h = omega arith
be_from-lt zero acc (x ∷ xs) e h = absurd (omega arith)
be_from-lt (suc w) acc [] e h = absurd (omega arith)
be_from-lt (suc w) acc (x ∷ xs) e h = omega (
  arith,
  be_from-lt w (acc * 256 + x) xs (omega arith) h.1,
  mul_mono (suc x) 256 (256 ^ w) h.0,
  ap (λ (t : ℕ). (acc + 1) * t) (pow-suc 256 w),
)

-- A slice of `w` bytes reads as an integer of `w` bytes.
pub from_be_bytes-lt :
    (w : ℕ) (xs : List ℕ) → length xs ≡ w → All IsByte xs → from_be_bytes xs < 256 ^ w
unfolding from_be_bytes
from_be_bytes-lt w xs e h = omega (arith, be_from-lt w 0 xs e h)

snoc-cases :
    (w : ℕ) (xs : List ℕ) → length xs ≡ suc w → (ys : List ℕ) × (b : ℕ) × (xs ≡ ys ++ b ∷ [])
snoc-cases w [] e = absurd (omega arith)
snoc-cases zero (x ∷ []) e = ([], x, refl)
snoc-cases zero (x ∷ y ∷ xs) e = absurd (omega arith)
snoc-cases (suc w) (x ∷ xs) e =
    let (ys, b, p) = snoc-cases w xs (omega arith) in (x ∷ ys, b, ap (λ l. x ∷ l) p)

All-split {ℓ κ} :
    {A : Type ℓ} (P : A → Type κ) (xs ys : List A) → All P (xs ++ ys) → All P xs × All P ys
All-split P [] ys h = (tt, h)
All-split P (x ∷ xs) ys h = let (a, b) = All-split P xs ys h.1 in ((h.0, a), b)

-- The bytes of the integer that a slice reads as are the slice.
pub to_be_bytes-from_be_bytes :
    (w : ℕ) (xs : List ℕ) → length xs ≡ w → All IsByte xs → to_be_bytes w (from_be_bytes xs) ≡ xs
unfolding to_be_bytes from_be_bytes
to_be_bytes-from_be_bytes zero [] e h = refl
to_be_bytes-from_be_bytes zero (x ∷ xs) e h = absurd (omega arith)
to_be_bytes-from_be_bytes (suc w) xs e h =
    let (ys, b, p) = snoc-cases w xs e in
    let bytes : All IsByte (ys ++ b ∷ []) = subst (All IsByte) p h in
    let (hy, hb) = All-split IsByte ys (b ∷ []) bytes in
    let len : length ys ≡ w = omega (arith, ap length p, length-append ys (b ∷ [])) in
    rw (p, be_from-append 0 ys b)
      (ap₂ (λ l c. l ++ c ∷ [])
        (ap (to_be_bytes w) {x = (be_from 0 ys * 256 + b) / 256} {y = be_from 0 ys} (omega arith)
          ∙ to_be_bytes-from_be_bytes w ys len hy)
        (omega arith))
