-- ===== src/Fec/Recovery.antt =====
-- One lost data packet is rebuilt from the parity and the others.
use agora_link.Prelude.{
  ℕ, zero, suc, ◌+◌, ◌-◌, ◌*◌, ◌^◌, ◌≤◌, ◌<◌, ◌≡◌, refl, sym, ap, ◌∙◌, List, [], ◌∷◌, ◌++◌, Option,
  none, some, arith, length, length-append, length-replicate, replicate, eq→==, length-map,
  le→ltb_false, ==→eq, ==_false→ne, ◌≢◌, Bool-cases, inl, inr, ok, guarded, guarded_pass, not, ◌==◌,
}
use mathlib.Core.List.{map}
use agora_link.Wire.Media.{max_video_packet_count}
use agora_link.Wire.Fec.{FecParity, expected_payload_len}
use agora_link.Fec.{
  data_payloads, chunk_at, fec_parity, xor_into, xor_all, max_len, recover_loop,
  recover_missing_payload,
}
use agora_link.Fec.Xor.{length-xor_into, length-xor_all, xor_all-missing, length-le-max_len}
use agora_link.Fec.Chunks.{
  chunk_count, chunk_count_bounds, length-data_payloads, full-chunk, last_chunk,
  last_len-data_payloads,
}

-- Each chunk, from index `i` on, has the length that the metadata expects, and is within `n` bytes.
abbrev Fits : FecParity → ℕ → ℕ → List (List ℕ) → Type 0
Fits p i n [] = Unit
Fits p i n (c ∷ cs) =
    (expected_payload_len p i ≡ ok (length c)) × (length c ≤ n) × Fits p (i + 1) n cs

Fits-split :
    (p : FecParity) (n i : ℕ) (pre : List (List ℕ)) (c : List ℕ) (post : List (List ℕ))
    → Fits p i n (pre ++ c ∷ post)
    → Fits p i n pre
      × (expected_payload_len p (i + length pre) ≡ ok (length c))
      × Fits p (i + length pre + 1) n post
Fits-split p n i [] c post h = let e : i ≡ i + 0 = omega arith in (tt, rw (← e) h.0, rw (← e) h.2)
Fits-split p n i (d ∷ pre) c post h =
    let (a, b, k) = Fits-split p n (i + 1) pre c post h.2 in
    let e : i + 1 + length pre ≡ i + suc (length pre) = omega arith in
    ((h.0, h.1, a), rw e at b, rw e at k)

module _ (p : FecParity) (missing : ℕ) where
  step-some :
      (i : ℕ) (c r : List ℕ) (rest : List (Option (List ℕ)))
      → expected_payload_len p i ≡ ok (length c)
      → length c ≤ length r
      → recover_loop p missing i (some c ∷ rest) r
        ≡ recover_loop p missing (i + 1) rest (xor_into r c)
  unfolding recover_loop guarded
  step-some i c r rest e h = rw e (ground arith)

  loop-all :
      (i : ℕ) (cs : List (List ℕ)) (r : List ℕ)
      → Fits p i (length r) cs
      → recover_loop p missing i (map some cs) r ≡ ok (xor_all r cs)
  unfolding recover_loop xor_all
  loop-all i [] r h = refl
  loop-all i (c ∷ cs) r h =
      step-some i c r (map some cs) h.0 h.1
      ∙ loop-all (i + 1) cs (xor_into r c) (rw (length-xor_into r c) h.2)

  loop-missing :
      (i : ℕ) (pre post : List (List ℕ)) (r : List ℕ)
      → Fits p i (length r) pre
      → Fits p (missing + 1) (length r) post
      → i + length pre ≡ missing
      → recover_loop p missing i (map some pre ++ none ∷ map some post) r
        ≡ ok (xor_all r (pre ++ post))
  unfolding recover_loop xor_all
  loop-missing i [] post r h k e =
      let same : i ≡ missing = omega arith in
      rw same (rw (eq→== missing missing refl) (loop-all (missing + 1) post r k))
  loop-missing i (c ∷ pre) post r h k e =
      step-some i c r (map some pre ++ none ∷ map some post) h.0 h.1
      ∙ loop-missing (i + 1) pre post (xor_into r c) (rw (length-xor_into r c) h.2)
          (rw (length-xor_into r c) k) (omega arith)

-- Recovery from a parity of the whole, for any metadata that fits the chunks.
recover-split :
    (p : FecParity) (pre post : List (List ℕ)) (c : List ℕ) (n : ℕ)
    → p.parity ≡ xor_all (replicate n 0) (pre ++ c ∷ post)
    → p.data_packet_count ≡ length (pre ++ c ∷ post)
    → Fits p 0 n (pre ++ c ∷ post)
    → length c ≤ n
    → recover_missing_payload (map some pre ++ none ∷ map some post) p (length pre) ≡ ok c
unfolding recover_missing_payload
recover-split p pre post c n parity count fits small =
    let (f, e, k) = Fits-split p n 0 pre c post fits in
    let same : 0 + length pre + 1 ≡ length pre + 1 = omega arith in
    let at : expected_payload_len p (length pre) ≡ ok (length c) =
      ap (expected_payload_len p) (omega arith) ∙ e in
    let size : length p.parity ≡ n =
      ap length parity ∙ length-xor_all (pre ++ c ∷ post) (replicate n 0) ∙ length-replicate n 0 in
    let rest : Fits p (length pre + 1) n post = rw same at k in
    let whole : length (map some pre ++ none ∷ map some post) ≡ p.data_packet_count = omega (
      arith,
      count,
      length-append pre (c ∷ post),
      length-append (map some pre) (none ∷ map some post),
      length-map {0, 0} pre some,
      length-map {0, 0} post some,
    ) in
    guarded_pass _ _ (ap not (eq→== _ _ whole), tt)
    ∙ rw at (
        guarded_pass _ _ (le→ltb_false (length p.parity) (length c) (omega (arith, size)), tt)
        ∙ rw
            (loop-missing p (length pre) 0 pre post p.parity (rw size f) (rw size rest)
              (omega arith))
            (ap ok (rw parity (xor_all-missing pre post c n small))))

module _ (p : FecParity) (m : ℕ) where
  expected-last :
      (j : ℕ)
      → p.data_packet_count ≡ suc m
      → j ≡ m
      → expected_payload_len p j ≡ ok p.last_data_payload_len
  unfolding expected_payload_len
  expected-last j count e = ground arith

  expected-full :
      (j : ℕ)
      → p.data_packet_count ≡ suc m
      → j < m
      → expected_payload_len p j ≡ ok p.data_payload_size
  unfolding expected_payload_len
  expected-full j count e = ground arith

le-ne→lt : (a b : ℕ) → a ≤ b → a ≢ b → a < b
le-ne→lt a b h k = omega arith

-- The metadata of `fec_parity` fits every chunk of the frame.
module _ (payload : List ℕ) (size m : ℕ) (tight : m * size ≤ length payload)
    (covered : length payload ≤ (m + 1) * size) (small : size < 65536) (few : m < 65535) where
  abbrev chunks : List (List ℕ)
  chunks = data_payloads payload size (suc m) 0

  bound-last : length payload - m * size ≤ size
  bound-last = omega arith

  expected-chunk :
      (j : ℕ)
      → j ≤ m
      → expected_payload_len (fec_parity chunks (suc m) size) j
        ≡ ok (length (chunk_at payload size j))
  unfolding fec_parity
  expected-chunk j h = elim (Bool-cases (j == m)) [
    | inl e ↦
        let same : j ≡ m = ==→eq j m e in
        expected-last _ m j (omega arith) same
        ∙ ap ok (
            omega (
              arith,
              bound-last,
              last_len-data_payloads payload size m tight covered,
              last_chunk payload size m tight covered,
              ap (λ k. length (chunk_at payload size k)) same,
            ))
    | inr e ↦
        let below : j < m = le-ne→lt j m h (==_false→ne j m e) in
        expected-full _ m j (omega arith) below
        ∙ ap ok (omega (arith, full-chunk payload size m tight covered j below))
  ]

  Fits-from :
      (n k i : ℕ)
      → i + k ≡ suc m
      → max_len (data_payloads payload size k i) ≤ n
      → Fits (fec_parity chunks (suc m) size) i n (data_payloads payload size k i)
  unfolding data_payloads max_len
  Fits-from n zero i e h = tt
  Fits-from n (suc k) i e h = (
    expected-chunk i (omega arith),
    omega arith,
    Fits-from n k (i + 1) (omega arith) (omega arith),
  )

parity-fec_parity :
    (cs : List (List ℕ)) (n size : ℕ)
    → (fec_parity cs n size).parity ≡ xor_all (replicate (max_len cs) 0) cs
unfolding fec_parity
parity-fec_parity cs n size = refl

count-fec_parity :
    (cs : List (List ℕ)) (n size : ℕ)
    → n < 65536
    → length cs ≡ n
    → (fec_parity cs n size).data_packet_count ≡ length cs
unfolding fec_parity
count-fec_parity cs n size h e = omega arith

-- Whichever one data packet of a frame is lost, the parity that was sent with the frame and the data
-- packets that arrived give its payload back, for every frame that fits the packet count limit and
-- every chunk size of at most 16 bits.
pub recover-lost_chunk :
    (payload : List ℕ) (size : ℕ) (pre post : List (List ℕ)) (lost : List ℕ)
    → 0 < size
    → size < 2 ^ 16
    → chunk_count (length payload) size ≤ max_video_packet_count
    → data_payloads payload size (chunk_count (length payload) size) 0 ≡ pre ++ lost ∷ post
    → recover_missing_payload
        (map some pre ++ none ∷ map some post)
        (fec_parity (pre ++ lost ∷ post) (chunk_count (length payload) size) size)
        (length pre)
      ≡ ok lost
recover-lost_chunk payload size pre post lost pos small few split =
    let (m, count, tight, covered) = chunk_count_bounds (length payload) size pos in
    let cs : List (List ℕ) = pre ++ lost ∷ post in
    let cut : data_payloads payload size (suc m) 0 ≡ cs = rw count at split in
    let fits : Fits (fec_parity cs (suc m) size) 0 (max_len cs) cs = rw cut at (
      Fits-from payload size m tight covered small (omega arith)
        (max_len (data_payloads payload size (suc m) 0)) (suc m) 0 (omega arith) (omega arith)) in
    rw count (
      recover-split (fec_parity cs (suc m) size) pre post lost (max_len cs)
        (parity-fec_parity cs (suc m) size)
        (count-fec_parity cs (suc m) size (omega arith)
          (sym (ap length cut) ∙ length-data_payloads payload size (suc m) 0))
        fits (length-le-max_len pre post lost))
