-- ===== src/Fec/Chunks.antt =====
-- The data payloads that `packetize_frame` cuts a frame into.
use agora_link.Prelude.{
  ℕ, zero, suc, ◌+◌, ◌-◌, ◌*◌, ◌/◌, ◌%◌, ◌≤◌, ◌<◌, min, max, ◌≡◌, refl, sym, ap, ap₂, ◌∙◌, List, [],
  ◌∷◌, ◌++◌, arith, length, take, drop, length-take, length-drop, take-append-drop, drop-drop,
  take-all, get_elem?, some, append-nil, le→leb, mul_mono,
}
use mathlib.Core.List.{flatten}
use native.Mathlib.Nat.{div-add-mod, mod-lt}
use agora_link.Wire.Media.{div_ceil}
use agora_link.Fec.{chunk_at, data_payloads, last_len}

drop-past {ℓ} : {A : Type ℓ} (n : ℕ) (xs : List A) → length xs ≤ n → drop n xs ≡ []
drop-past zero [] h = refl
drop-past zero (x ∷ xs) h = absurd (omega arith)
drop-past (suc n) [] h = refl
drop-past (suc n) (x ∷ xs) h = drop-past n xs (omega arith)

take-min {ℓ} :
    {A : Type ℓ} (m n : ℕ) (xs : List A) → min n (length xs) ≤ m → m ≤ n → take m xs ≡ take n xs
take-min zero zero xs h k = refl
take-min zero (suc n) [] h k = refl
take-min zero (suc n) (x ∷ xs) h k = absurd (omega arith)
take-min (suc m) zero xs h k = absurd (omega arith)
take-min (suc m) (suc n) [] h k = refl
take-min (suc m) (suc n) (x ∷ xs) h k =
    ap (λ l. x ∷ l) (take-min m n xs (omega arith) (omega arith))

module _ (payload : List ℕ) (size : ℕ) where
  -- A chunk that starts inside the payload is the next `size` bytes, or what is left of them.
  chunk-eq-take :
      (i : ℕ)
      → i * size ≤ length payload
      → chunk_at payload size i ≡ take size (drop (i * size) payload)
  chunk-eq-take i h =
      rw
        (
          le→leb (i * size) (min (i * size + size) (length payload)) (omega arith),
          le→leb (min (i * size + size) (length payload)) (length payload) (omega arith),
        )
        (take-min _ size (drop (i * size) payload) (omega (arith, length-drop (i * size) payload))
          (omega arith))

  length-chunk :
      (i : ℕ)
      → i * size ≤ length payload
      → length (chunk_at payload size i) ≡ min size (length payload - i * size)
  length-chunk i h =
      rw (chunk-eq-take i h)
        (omega (arith, length-take size (drop (i * size) payload), length-drop (i * size) payload))

  pub length-data_payloads : (n i : ℕ) → length (data_payloads payload size n i) ≡ n
  unfolding data_payloads
  length-data_payloads zero i = refl
  length-data_payloads (suc n) i = ap suc (length-data_payloads n (i + 1))

  -- The chunks from index `i` on are the payload from there on, if the last one is not beyond it.
  chunks_cover :
      (m i : ℕ)
      → (i + m) * size ≤ length payload
      → length payload ≤ (i + m + 1) * size
      → flatten (data_payloads payload size (suc m) i) ≡ drop (i * size) payload
  unfolding data_payloads flatten
  chunks_cover zero i h k =
      rw (chunk-eq-take i (omega arith))
        (append-nil _ ∙ take-all size _ (omega (arith, length-drop (i * size) payload)))
  chunks_cover (suc m) i h k =
      ap₂ ◌++◌ (chunk-eq-take i (omega arith)) (
        chunks_cover m (i + 1) (omega arith) (omega arith)
        ∙ ap (λ j. drop j payload) {x = (i + 1) * size} {y = i * size + size} (omega arith)
        ∙ sym (drop-drop (i * size) size payload))
      ∙ take-append-drop size (drop (i * size) payload)

  get-data_payloads :
      (n i j : ℕ)
      → j < n
      → get_elem? (data_payloads payload size n i) j ≡ some (chunk_at payload size (i + j))
  unfolding data_payloads
  get-data_payloads zero i j h = absurd (omega arith)
  get-data_payloads (suc n) i zero h = ap (λ k. some (chunk_at payload size k)) (omega arith)
  get-data_payloads (suc n) i (suc j) h =
      get-data_payloads n (i + 1) j (omega arith)
      ∙ ap (λ k. some (chunk_at payload size k)) (omega arith)

-- `count` of `packetize_frame` is the least number of chunks that holds the payload, and at least one.
abbrev pub chunk_count : ℕ → ℕ → ℕ
chunk_count len size = max (div_ceil len size) 1

count_bounds :
    (len size q r : ℕ)
    → size * q + r ≡ len + size - 1
    → r < size
    → (m : ℕ) × (max q 1 ≡ suc m) × (m * size ≤ len) × (len ≤ (m + 1) * size)
count_bounds len size zero r e h = (0, omega arith, omega arith, omega arith)
count_bounds len size (suc q) r e h = (q, omega arith, omega arith, omega arith)

-- The last of the chunks starts inside the payload, and they reach its end.
pub chunk_count_bounds :
    (len size : ℕ)
    → 0 < size
    → (m : ℕ) × (chunk_count len size ≡ suc m) × (m * size ≤ len) × (len ≤ (m + 1) * size)
chunk_count_bounds len size h =
    count_bounds len size ((len + size - 1) / size) ((len + size - 1) % size)
      (div-add-mod (len + size - 1) size) (mod-lt (len + size - 1) h)

-- The chunks are a partition of the payload: in order and joined, they are the payload.
pub flatten-data_payloads :
    (payload : List ℕ) (size : ℕ)
    → 0 < size
    → flatten (data_payloads payload size (chunk_count (length payload) size) 0) ≡ payload
flatten-data_payloads payload size h =
    let (m, count, tight, covered) = chunk_count_bounds (length payload) size h in
    rw count (
      chunks_cover payload size m 0 (omega arith) (omega arith)
      ∙ ap (λ j. drop j payload) {y = 0} (omega arith))

last_len-eq :
    (payload : List ℕ) (size m i : ℕ)
    → last_len (data_payloads payload size (suc m) i) ≡ length (chunk_at payload size (i + m))
unfolding last_len data_payloads
last_len-eq payload size zero i = ap (λ k. length (chunk_at payload size k)) (omega arith)
last_len-eq payload size (suc m) i =
    last_len-eq payload size m (i + 1) ∙ ap (λ k. length (chunk_at payload size k)) (omega arith)

-- The length that the parity's metadata expects of chunk `j`: `size`, but for the last chunk.
module _ (payload : List ℕ) (size m : ℕ) (tight : m * size ≤ length payload)
    (covered : length payload ≤ (m + 1) * size) where
  pub full-chunk : (j : ℕ) → j < m → length (chunk_at payload size j) ≡ size
  full-chunk j h =
      let below : suc j * size ≤ m * size = mul_mono (suc j) m size h in
      omega (arith, length-chunk payload size j (omega arith))

  pub last_chunk : length (chunk_at payload size m) ≡ length payload - m * size
  last_chunk = omega (arith, length-chunk payload size m tight)

  pub last_len-data_payloads :
      last_len (data_payloads payload size (suc m) 0) ≡ length payload - m * size
  last_len-data_payloads =
      last_len-eq payload size m 0
      ∙ ap (λ k. length (chunk_at payload size k)) {y = m} (omega arith)
      ∙ last_chunk
