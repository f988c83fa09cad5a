-- ===== src/Audio/Clock/Cadence.antt =====
-- Timestamps keep the cadence of the capture.
use agora_link.Prelude.{
  ℕ, zero, suc, ◌+◌, ◌-◌, ◌*◌, ◌/◌, ◌^◌, ◌≤◌, ◌≡◌, refl, sym, ap, ap₂, min, List, [], ◌∷◌, Bool,
  true, ltb, ◌==◌, if_cases, some, arith,
}
use mathlib.Core.Path.{subst}
use native.Mathlib.Nat.{div-mul-le_self, le-div_iff_mul-le}
use agora_link.Audio.Timeline.{saturated}
use agora_link.Audio.Clock.{
  QpcMediaTimestampMapper, anchor_or, ticks_us, map_with, map_capture_timestamp,
}

div_mono : (a b n : ℕ) → a ≤ b → a / n ≤ b / n
div_mono a b zero h = omega arith
div_mono a b (suc n) h =
    (le-div_iff_mul-le {k = suc n} {x = a / suc n} {y = b} (omega arith)).1
      (omega (arith, div-mul-le_self a (suc n), h))

ticks_us_mono : (frequency a b : ℕ) → a ≤ b → ticks_us frequency a ≤ ticks_us frequency b
ticks_us_mono frequency a b h = omega (
  arith,
  div_mono (min (a * 1000000) (2 ^ 128 - 1)) (min (b * 1000000) (2 ^ 128 - 1)) frequency
      (omega arith),
)

-- The time of a position by the anchors.
abbrev time_at : ℕ → ℕ → ℕ → ℕ → ℕ
time_at frequency anchor_qpc anchor_us position =
    saturated (anchor_us + ticks_us frequency (position - anchor_qpc))

time_at_mono : (frequency a b p q : ℕ) → p ≤ q → time_at frequency a b p ≤ time_at frequency a b q
time_at_mono frequency a b p q h =
    omega (arith, ticks_us_mono frequency (p - a) (q - a) (omega arith))

-- The anchors are set.
abbrev IsAnchoredBy : QpcMediaTimestampMapper → ℕ → ℕ → ℕ → Type 0
IsAnchoredBy m frequency a b =
    (m.qpc_frequency ≡ some frequency) × (m.anchor_qpc ≡ some a) × (m.anchor_media_us ≡ some b)

-- What a mapping gives under anchors.
abbrev Gives : ℕ → ℕ → ℕ → ℕ → QpcMediaTimestampMapper × ℕ × Bool → Type 0
Gives frequency a b position (m, us, used) =
    used ≡ true → IsAnchoredBy m frequency a b × (us ≡ time_at frequency a b position)

abbrev Keeps : ℕ → ℕ → ℕ → QpcMediaTimestampMapper × ℕ × Bool → Type 0
Keeps frequency a b (m, us, used) = IsAnchoredBy m frequency a b

module _ (m : QpcMediaTimestampMapper) (frequency position fallback : ℕ)
    (f : m.qpc_frequency ≡ some frequency) where
  map-Gives :
      Gives frequency
        (anchor_or m.anchor_qpc position)
        (anchor_or m.anchor_media_us fallback)
        position
        (map_capture_timestamp m position fallback)
  unfolding map_capture_timestamp
  map-Gives =
      let a : ℕ = anchor_or m.anchor_qpc position in
      let b : ℕ = anchor_or m.anchor_media_us fallback in
      subst (λ o. Gives frequency a b position (map_with o m position fallback)) (sym f)
        (if_cases (Gives frequency a b position) (position == 0) _ _ (λ _ h. cc)
          (λ _.
            if_cases (Gives frequency a b position) (ltb position a) _ _ (λ _ h. cc)
              (λ _ _. ((f, refl, refl), refl))))

  map-Keeps :
      (a b : ℕ)
      → IsAnchoredBy m frequency a b
      → Keeps frequency a b (map_capture_timestamp m position fallback)
  unfolding map_capture_timestamp
  map-Keeps a b h =
      let at : anchor_or m.anchor_qpc position ≡ a = ap (λ o. anchor_or o position) h.1 in
      let us : anchor_or m.anchor_media_us fallback ≡ b = ap (λ o. anchor_or o fallback) h.2 in
      subst (λ o. Keeps frequency a b (map_with o m position fallback)) (sym f)
        (if_cases (Keeps frequency a b) (position == 0) _ _ (λ _. h)
          (λ _.
            if_cases (Keeps frequency a b) (ltb position (anchor_or m.anchor_qpc position)) _ _
              (λ _. (f, ap some at, ap some us)) (λ _. (f, ap some at, ap some us))))

unfoldable pub map_all : QpcMediaTimestampMapper → List (ℕ × ℕ) → QpcMediaTimestampMapper
map_all m [] = m
map_all m ((position, fallback) ∷ calls) =
    map_all (map_capture_timestamp m position fallback).0 calls

all-IsAnchoredBy :
    (m : QpcMediaTimestampMapper) (calls : List (ℕ × ℕ)) (frequency a b : ℕ)
    → IsAnchoredBy m frequency a b
    → IsAnchoredBy (map_all m calls) frequency a b
unfolding map_all
all-IsAnchoredBy m [] frequency a b h = h
all-IsAnchoredBy m ((position, fallback) ∷ calls) frequency a b h =
    all-IsAnchoredBy (map_capture_timestamp m position fallback).0 calls frequency a b
      (map-Keeps m frequency position fallback h.0 a b h)

-- Of two buffers that are stamped by the performance counter, whatever was mapped between them, the one
-- at the later position does not get the earlier timestamp.
pub map_capture_timestamp_mono :
    (m : QpcMediaTimestampMapper) (frequency p us q us' : ℕ) (between : List (ℕ × ℕ))
    → m.qpc_frequency ≡ some frequency
    → (map_capture_timestamp m p us).2 ≡ true
    → (map_capture_timestamp (map_all (map_capture_timestamp m p us).0 between) q us').2 ≡ true
    → p ≤ q
    → (map_capture_timestamp m p us).1
      ≤ (map_capture_timestamp (map_all (map_capture_timestamp m p us).0 between) q us').1
map_capture_timestamp_mono m frequency p us q us' between f used used' le =
    let a : ℕ = anchor_or m.anchor_qpc p in
    let b : ℕ = anchor_or m.anchor_media_us us in
    let n : QpcMediaTimestampMapper = map_all (map_capture_timestamp m p us).0 between in
    let (anchors, stamp) = map-Gives m frequency p us f used in
    let kept : IsAnchoredBy n frequency a b =
      all-IsAnchoredBy (map_capture_timestamp m p us).0 between frequency a b anchors in
    let (_, stamp') = map-Gives n frequency q us' kept.0 used' in
    let same : time_at frequency (anchor_or n.anchor_qpc q) (anchor_or n.anchor_media_us us') q
        ≡ time_at frequency a b q =
      ap₂ (λ x y. time_at frequency x y q) (ap (λ o. anchor_or o q) kept.1)
        (ap (λ o. anchor_or o us') kept.2) in
    omega (arith, stamp, stamp', same, time_at_mono frequency a b p q le)
