-- ===== src/Map.antt =====
-- `HashMap` and `BTreeMap` as association lists. The code never iterates over a hash map where the
-- order of the entries decides anything, so the order is only that of insertion.
use agora_link.Prelude.{
  ℕ, ◌+◌, ◌≡◌, ◌≢◌, ◌↔◌, refl, sym, ◌∙◌, Bool, true, false, List, [], ◌∷◌, Option, none, some,
  arith, if◌then◌else◌, Bool-cases, inl, inr, ◌==◌, ==→eq, eq→==,
}

pub record Eq {ℓ} (A : Type ℓ) : Type ℓ where
  pub beq : A → A → Bool
  pub beq_iff : (a b : A) → (beq a b ≡ true) ↔ (a ≡ b)

abbrev nat_beq : ℕ → ℕ → Bool
nat_beq a b = a == b

pub nat_beq_iff : (a b : ℕ) → (nat_beq a b ≡ true) ↔ (a ≡ b)
nat_beq_iff a b = (==→eq a b, eq→== a b)

instance abbrev pub nat_eq : Eq ℕ
nat_eq = record { beq = nat_beq; beq_iff = nat_beq_iff }

abbrev pub Map {ℓ κ} : Type ℓ → Type κ → Type (ℓ ⊔ κ)
Map K V = List (K × V)

true-ne-false : true ≢ false
true-ne-false h = cc

abbrev pub weight {κ} : {V : Type κ} → (V → ℕ) → Option V → ℕ
weight f none = 0
weight f (some v) = f v

module _ {ℓ κ} {K : Type ℓ} {V : Type κ} ⦃e : Eq K⦄ where
  -- `get`
  unfoldable pub lookup : K → Map K V → Option V
  lookup k [] = none
  lookup k ((j, v) ∷ m) = if e.beq j k then some v else lookup k m

  -- `insert`, without its result: the previous value is that of `lookup`.
  unfoldable pub insert : K → V → Map K V → Map K V
  insert k v [] = (k, v) ∷ []
  insert k v ((j, w) ∷ m) = if e.beq j k then (k, v) ∷ m else (j, w) ∷ insert k v m

  unfoldable pub remove : K → Map K V → Map K V
  remove k [] = []
  remove k ((j, v) ∷ m) = if e.beq j k then remove k m else (j, v) ∷ remove k m

  unfoldable pub contains_key : K → Map K V → Bool
  unfolding lookup
  contains_key k m = elim (lookup k m) [ none ↦ false | some v ↦ true ]

  pub lookup-insert :
      (k j : K) (v : V) (m : Map K V)
      → lookup j (insert k v m) ≡ (if e.beq k j then some v else lookup j m)
  unfolding lookup insert
  lookup-insert k j v [] = refl
  lookup-insert k j v ((i, w) ∷ m) =
      ground (arith, e.beq_iff k j, e.beq_iff i k, e.beq_iff i j, lookup-insert k j v m)

  pub lookup-remove :
      (k j : K) (m : Map K V) → lookup j (remove k m) ≡ (if e.beq k j then none else lookup j m)
  unfolding lookup remove
  lookup-remove k j [] = ground arith
  lookup-remove k j ((i, w) ∷ m) =
      ground (arith, e.beq_iff k j, e.beq_iff i k, e.beq_iff i j, lookup-remove k j m)

  -- The sum of a measure over the values.
  unfoldable pub total : (V → ℕ) → Map K V → ℕ
  total f [] = 0
  total f ((j, v) ∷ m) = f v + total f m

  -- No key twice.
  abbrev pub Absent : K → Map K V → Type ℓ
  Absent k [] = Unit
  Absent k ((j, v) ∷ m) = (j ≢ k) × Absent k m

  abbrev pub Distinct : Map K V → Type ℓ
  Distinct [] = Unit
  Distinct ((j, v) ∷ m) = Absent j m × Distinct m

  pub Absent-remove : (k i : K) (m : Map K V) → Absent i m → Absent i (remove k m)
  unfolding remove
  Absent-remove k i [] h = tt
  Absent-remove k i ((j, v) ∷ m) h = elim (Bool-cases (e.beq j k)) [
    | inl p ↦ rw p (Absent-remove k i m h.1)
    | inr p ↦ rw p (h.0, Absent-remove k i m h.1)
  ]

  pub Distinct-remove : (k : K) (m : Map K V) → Distinct m → Distinct (remove k m)
  unfolding remove
  Distinct-remove k [] h = tt
  Distinct-remove k ((j, v) ∷ m) h = elim (Bool-cases (e.beq j k)) [
    | inl p ↦ rw p (Distinct-remove k m h.1)
    | inr p ↦ rw p (Absent-remove k j m h.0, Distinct-remove k m h.1)
  ]

  pub Absent-insert : (k i : K) (v : V) (m : Map K V) → k ≢ i → Absent i m → Absent i (insert k v m)
  unfolding insert
  Absent-insert k i v [] n h = (n, tt)
  Absent-insert k i v ((j, w) ∷ m) n h = elim (Bool-cases (e.beq j k)) [
    | inl p ↦ rw p (n, h.1)
    | inr p ↦ rw p (h.0, Absent-insert k i v m n h.1)
  ]

  pub Distinct-insert : (k : K) (v : V) (m : Map K V) → Distinct m → Distinct (insert k v m)
  unfolding insert
  Distinct-insert k v [] h = (tt, tt)
  Distinct-insert k v ((j, w) ∷ m) h = elim (Bool-cases (e.beq j k)) [
    | inl p ↦ rw (p, ← (e.beq_iff j k).0 p) h
    | inr p ↦ rw p (
      Absent-insert k j v m (λ q. true-ne-false (sym ((e.beq_iff j k).1 (sym q)) ∙ p)) h.0,
      Distinct-insert k v m h.1,
    )
  ]

  lookup-Absent : (k : K) (m : Map K V) → Absent k m → lookup k m ≡ none
  unfolding lookup
  lookup-Absent k [] h = refl
  lookup-Absent k ((j, v) ∷ m) h = ground (arith, e.beq_iff j k, lookup-Absent k m)

  remove-Absent : (k : K) (m : Map K V) → Absent k m → remove k m ≡ m
  unfolding remove
  remove-Absent k [] h = refl
  remove-Absent k ((j, v) ∷ m) h = ground (arith, e.beq_iff j k, remove-Absent k m)

  -- What an insertion adds to a measure, and what it replaces.
  pub total-insert :
      (f : V → ℕ) (k : K) (v : V) (m : Map K V)
      → total f (insert k v m) + weight f (lookup k m) ≡ total f m + f v
  unfolding total insert lookup
  total-insert f k v [] = omega arith
  total-insert f k v ((j, w) ∷ m) = elim (Bool-cases (e.beq j k)) [
    | inl p ↦ rw p (omega arith)
    | inr p ↦ rw p (omega (arith, total-insert f k v m))
  ]

  pub total-remove :
      (f : V → ℕ) (k : K) (m : Map K V)
      → Distinct m
      → total f (remove k m) + weight f (lookup k m) ≡ total f m
  unfolding total remove lookup
  total-remove f k [] h = omega arith
  total-remove f k ((j, w) ∷ m) h = elim (Bool-cases (e.beq j k)) [
    | inl p ↦
        let q : j ≡ k = (e.beq_iff j k).0 p in
        let a : Absent k m = rw (← q) h.0 in rw (p, remove-Absent k m a) (omega arith)
    | inr p ↦ rw p (omega (arith, total-remove f k m h.1))
  ]
