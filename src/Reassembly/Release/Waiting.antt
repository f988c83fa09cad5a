-- ===== src/Reassembly/Release/Waiting.antt =====
-- The frames that wait to be released, and the first of them.
use agora_link.Prelude.{
  ℕ, ◌+◌, ◌≡◌, ◌≢◌, ◌≤◌, sym, ◌∙◌, min, [], ◌∷◌, Option, none, some, All, arith, Bool-cases,
  Option-cases, inl, inr, ==_false→ne, ==→eq, ◌==◌,
}
use agora_link.Map.{Map, lookup, remove, nat_eq}
use agora_link.Repair.{u64_max}
use agora_link.Reassembly.{EncodedFrame}
use agora_link.Reassembly.Release.{first_key}

-- Every waiting frame is stored under its own id, which is a u64 not before `n`.
abbrev WaitsFrom : ℕ → ℕ × EncodedFrame → Type 0
WaitsFrom n e = (n ≤ e.0) × (e.0 ≤ u64_max) × (e.1.frame_id ≡ e.0)

abbrev pub Waiting : ℕ → Map ℕ EncodedFrame → Type 0
Waiting n = All (WaitsFrom n)

pub Waiting-remove : (n : ℕ) (m : Map ℕ EncodedFrame) → Waiting n m → Waiting (n + 1) (remove n m)
unfolding remove
Waiting-remove n [] w = tt
Waiting-remove n ((k, f) ∷ m) w = elim (Bool-cases (k == n)) [
  | inl p ↦ rw p (Waiting-remove n m w.1)
  | inr p ↦ rw p ((omega (arith, ==_false→ne k n p, w.0.0), w.0.1, w.0.2), Waiting-remove n m w.1)
]

pub Waiting-absent :
    (n : ℕ) (m : Map ℕ EncodedFrame) → lookup n m ≡ none → Waiting n m → Waiting (n + 1) m
unfolding lookup
Waiting-absent n [] a w = tt
Waiting-absent n ((k, f) ∷ m) a w = elim (Bool-cases (k == n)) [
  | inl p ↦ absurd (none-ne-some (sym (rw p at a)))
  | inr p ↦
      ((omega (arith, ==_false→ne k n p, w.0.0), w.0.1, w.0.2), Waiting-absent n m (rw p at a) w.1)
]
  where
    none-ne-some : {g : EncodedFrame} → ◌≢◌ {A = Option EncodedFrame} none (some g)
    none-ne-some h = cc

pub Waiting-found :
    (n k : ℕ) (m : Map ℕ EncodedFrame) (f : EncodedFrame)
    → lookup k m ≡ some f
    → Waiting n m
    → f.frame_id ≡ k
unfolding lookup
Waiting-found n k [] f a w = absurd cc
Waiting-found n k ((j, g) ∷ m) f a w = elim (Bool-cases (j == k)) [
  | inl p ↦
      let same : some g ≡ some f = rw p at a in let e : g ≡ f = cc in rw (← e) (w.0.2 ∙ ==→eq j k p)
  | inr p ↦ Waiting-found n k m f (rw p at a) w.1
]

pub first_key-none : (m : Map ℕ EncodedFrame) (n : ℕ) → first_key m ≡ none → Waiting n m
unfolding first_key
first_key-none [] n h = tt
first_key-none ((k, f) ∷ m) n h = elim (Option-cases (first_key m)) [
  | inl p ↦ absurd (bad (sym (rw p at h)))
  | inr (j, p) ↦ absurd (bad (sym (rw p at h)))
]
  where
    bad : {a : ℕ} → ◌≢◌ {A = Option ℕ} none (some a)
    bad h = cc

Waiting-mono : (n k : ℕ) (m : Map ℕ EncodedFrame) → k ≤ n → Waiting n m → Waiting k m
Waiting-mono n k [] h w = tt
Waiting-mono n k ((j, f) ∷ m) h w = ((omega (arith, w.0.0), w.0.1, w.0.2), Waiting-mono n k m h w.1)

-- The first key is one of the keys and no key is before it.
pub first_key-some :
    (n : ℕ) (m : Map ℕ EncodedFrame) (k : ℕ)
    → first_key m ≡ some k
    → Waiting n m
    → (n ≤ k) × (k ≤ u64_max) × Waiting k m
unfolding first_key
first_key-some n [] k h w = absurd cc
first_key-some n ((j, f) ∷ m) k h w = elim (Option-cases (first_key m)) [
  | inl p ↦
      let same : some j ≡ some k = rw p at h in
      let e : j ≡ k = cc in
      (
        omega (arith, w.0.0),
        omega (arith, w.0.1),
        ((omega arith, w.0.1, w.0.2), first_key-none m k p),
      )
  | inr (i, p) ↦
      let same : some (min j i) ≡ some k = rw p at h in
      let e : min j i ≡ k = cc in
      let (low, high, rest) = first_key-some n m i p w.1 in
      (
        omega (arith, w.0.0),
        omega (arith, high),
        ((omega arith, w.0.1, w.0.2), Waiting-mono i k m (omega arith) rest),
      )
]
