-- ===== src/Control/Feedback/Codec.antt =====
-- The datagrams of capability feedback, of both versions.
use agora_link.Prelude.{
  ℕ, ◌≡◌, ◌≢◌, refl, ap, ◌∙◌, ◌↔◌, ◌⊎◌, inl, inr, List, length, get_or, false, ◌&&◌, ◌==◌, not, All,
  AllPass, ok, guarded-passed, guarded_pass, ok-injective, arith,
}
use agora_link.Bytes.{IsByte}
use agora_link.Control.Feedback.{
  CapabilityFeedback, IsWellTyped, HasZeros, feedback_tests, feedback_bytes, encode, read_feedback,
  opening_tests, decode,
}
use agora_link.Control.Feedback.Versions.{
  read_feedback-bytes_first, read_feedback-bytes_second, header-bytes_first, header-bytes_second,
  read_first-IsWellTyped, read_second-IsWellTyped, read_first-HasZeros, feedback_bytes-read_first,
  feedback_bytes-read_second,
}

-- The first version carries no more than its own fields.
unfoldable pub IsCarried : CapabilityFeedback → Type 0
IsCarried p = p.version ≡ 1 → HasZeros p

two_versions : (v : ℕ) → not (v == 1) && not (v == 2) ≡ false → (v ≡ 1) ⊎ (v ≡ 2)
two_versions v h = ground arith

read_feedback-bytes :
    (p : CapabilityFeedback)
    → IsWellTyped p
    → IsCarried p
    → (v : ℕ) → p.version ≡ v
    → (v ≡ 1) ⊎ (v ≡ 2)
    → read_feedback v (feedback_bytes v p) ≡ p
unfolding IsCarried
read_feedback-bytes p t z v e (inl one) =
    rw (one) (read_feedback-bytes_first p t (e ∙ one) (z (e ∙ one)))
read_feedback-bytes p t z v e (inr two) = rw (two) (read_feedback-bytes_second p t (e ∙ two))

header-feedback_bytes :
    (p : CapabilityFeedback) (v : ℕ)
    → (v ≡ 1) ⊎ (v ≡ 2)
    → AllPass (opening_tests (feedback_bytes v p))
header-feedback_bytes p v (inl one) = rw (one) (header-bytes_first p)
header-feedback_bytes p v (inr two) = rw (two) (header-bytes_second p)

version_byte : (p : CapabilityFeedback) (v : ℕ) → get_or (feedback_bytes v p) 4 0 ≡ v
unfolding feedback_bytes
version_byte p v = refl

decode-encode_feedback :
    (bytes : List ℕ) (p : CapabilityFeedback)
    → IsWellTyped p
    → IsCarried p
    → encode p ≡ ok bytes
    → decode bytes ≡ ok p
unfolding encode decode
decode-encode_feedback bytes p t z e =
    let (h, written) = guarded-passed (feedback_tests p) _ e in
    let same : feedback_bytes p.version p ≡ bytes = ok-injective written in
    let v : (p.version ≡ 1) ⊎ (p.version ≡ 2) = two_versions p.version h.0 in
    let back : read_feedback p.version (feedback_bytes p.version p) ≡ p =
      read_feedback-bytes p t z p.version refl v in
    rw
      (
        ← same,
        guarded_pass _ _ (header-feedback_bytes p p.version v),
        version_byte p p.version,
        back,
      )
      (guarded_pass _ _ h)

not_first : (bytes : List ℕ) → (read_feedback 2 bytes).version ≢ 1
unfolding read_feedback
not_first bytes h = omega arith

module _ (bytes : List ℕ) (b : All IsByte bytes) (h : AllPass (opening_tests bytes)) where
  long_first : get_or bytes 4 0 ≡ 1 → length bytes ≡ 112
  long_first v = ground (arith, h.1.1.0)

  long_second : get_or bytes 4 0 ≡ 2 → length bytes ≡ 144
  long_second v = ground (arith, h.1.1.0)

  read-written :
      (v : ℕ)
      → get_or bytes 4 0 ≡ v
      → (v ≡ 1) ⊎ (v ≡ 2)
      → IsWellTyped (read_feedback v bytes)
        × IsCarried (read_feedback v bytes)
        × (feedback_bytes v (read_feedback v bytes) ≡ bytes)
  unfolding IsCarried
  read-written v e (inl one) = rw (one) (
    read_first-IsWellTyped bytes b (long_first (e ∙ one)),
    (λ _. read_first-HasZeros bytes b),
    feedback_bytes-read_first bytes b h (e ∙ one) (long_first (e ∙ one)),
  )
  read-written v e (inr two) = rw (two) (
    read_second-IsWellTyped bytes b (long_second (e ∙ two)),
    (λ x. absurd (not_first bytes x)),
    feedback_bytes-read_second bytes b h (e ∙ two) (long_second (e ∙ two)),
  )

encode-decode_feedback :
    (bytes : List ℕ) (p : CapabilityFeedback)
    → All IsByte bytes
    → decode bytes ≡ ok p
    → IsWellTyped p × IsCarried p × (encode p ≡ ok bytes)
unfolding encode decode read_feedback
encode-decode_feedback bytes p b e =
    let (h, e') = guarded-passed (opening_tests bytes) _ e in
    let v : ℕ = get_or bytes 4 0 in
    let (g, read) = guarded-passed (feedback_tests (read_feedback v bytes)) _ e' in
    let same : read_feedback v bytes ≡ p = ok-injective read in
    let (t, z, written) = read-written bytes b h v refl (two_versions v h.1.0) in
    rw (← same) (t, z, guarded_pass _ _ g ∙ ap ok written)

-- A datagram of bytes decodes to a feedback exactly when it is the encoding of that feedback, the
-- fields of the feedback are within their Rust types, and a feedback of version 1 has zeros in the
-- fields that only version 2 carries.
pub decode_iff_feedback :
    (bytes : List ℕ) (p : CapabilityFeedback)
    → All IsByte bytes
    → (decode bytes ≡ ok p) ↔ (IsWellTyped p × IsCarried p × (encode p ≡ ok bytes))
decode_iff_feedback bytes p b =
    (encode-decode_feedback bytes p b, λ (t, z, e). decode-encode_feedback bytes p t z e)
