-- ===== src/Repair/Expiry.antt =====
-- The eviction loop that `RepairSuppression::evict` and `RepairCache::evict_expired` share.
use agora_link.Prelude.{
  ℕ, ◌-◌, ◌≤◌, ◌≡◌, ◌≢◌, ◌⊎◌, inl, inr, refl, sym, ap, ◌∙◌, arith, true, false, Bool-cases,
  if◌then◌else◌, leb, ◌==◌, List, [], ◌∷◌, ◌++◌, none, some, All, Option-cases,
}
use agora_link.Map.{
  Map, Eq, lookup, insert, remove, lookup-insert, lookup-remove, Distinct, Distinct-remove,
}
use agora_link.Wire.Nack.{PacketKey}

-- `order`: what was stored when, oldest first.
abbrev pub Order : Type 0
Order = List (ℕ × PacketKey)

abbrev Queued : ℕ → PacketKey → Order → Type 0
Queued t k [] = ⊥
Queued t k ((u, j) ∷ order) = ((u ≡ t) × (j ≡ k)) ⊎ Queued t k order

-- Oldest first.
abbrev pub Sorted : Order → Type 0
Sorted [] = Unit
Sorted ((t, k) ∷ order) = All (λ p. t ≤ p.0) order × Sorted order

abbrev pub Past : ℕ → Order → Type 0
Past now = All (λ p. p.0 ≤ now)

Queued-push :
    (t : ℕ) (k : PacketKey) (u : ℕ) (j : PacketKey) (order : Order)
    → Queued t k order
    → Queued t k (order ++ (u, j) ∷ [])
Queued-push t k u j [] q = absurd q
Queued-push t k u j ((w, i) ∷ order) (inl p) = inl p
Queued-push t k u j ((w, i) ∷ order) (inr q) = inr (Queued-push t k u j order q)

Queued-last : (t : ℕ) (k : PacketKey) (order : Order) → Queued t k (order ++ (t, k) ∷ [])
Queued-last t k [] = inl (refl, refl)
Queued-last t k ((w, i) ∷ order) = inr (Queued-last t k order)

later-push :
    (w t : ℕ) (k : PacketKey) (order : Order)
    → w ≤ t
    → All (λ p. w ≤ p.0) order
    → All (λ p. w ≤ p.0) (order ++ (t, k) ∷ [])
later-push w t k [] h a = (h, tt)
later-push w t k ((u, j) ∷ order) h a = (a.0, later-push w t k order h a.1)

pub Sorted-push :
    (t : ℕ) (k : PacketKey) (order : Order)
    → Past t order
    → Sorted order
    → Sorted (order ++ (t, k) ∷ [])
Sorted-push t k [] p s = (tt, tt)
Sorted-push t k ((u, j) ∷ order) p s =
    (later-push u t k order p.0 s.0, Sorted-push t k order p.1 s.1)

pub Past-push :
    (t : ℕ) (k : PacketKey) (order : Order) → Past t order → Past t (order ++ (t, k) ∷ [])
Past-push t k [] p = (omega arith, tt)
Past-push t k ((u, j) ∷ order) p = (p.0, Past-push t k order p.1)

pub Past-mono : (t u : ℕ) (order : Order) → t ≤ u → Past t order → Past u order
Past-mono t u [] h p = tt
Past-mono t u ((w, j) ∷ order) h p = (omega (arith, p.0), Past-mono t u order h p.1)

-- The entries carry a time, `stamp`; `S` is what else the caller's loop updates when it removes one.
module _ {V S : Type 0} ⦃e : Eq PacketKey⦄ (stamp : V → ℕ) (dropped : V → S → S) where
  -- Removes the entry of `key` if it is the one that was stored at `sent_at`.
  unfoldable pub evict_entry : ℕ → PacketKey → Map PacketKey V → S → Map PacketKey V × S
  evict_entry sent_at key m s = elim (lookup key m) [
    | none ↦ (m, s)
    | some v ↦ if stamp v == sent_at then (remove key m, dropped v s) else (m, s)
  ]

  -- `while let Some((sent_at, key)) = order.front()`, with `limit` the age that is kept.
  unfoldable pub evict_loop : ℕ → ℕ → Map PacketKey V → Order → S → Map PacketKey V × Order × S
  unfolding evict_entry
  evict_loop limit now m [] s = (m, [], s)
  evict_loop limit now m ((sent_at, key) ∷ order) s =
      let (m', s') = evict_entry sent_at key m s in
      let rest = evict_loop limit now m' order s' in
      if leb (now - sent_at) limit then (m, (sent_at, key) ∷ order, s) else rest

  -- What is not in the order stays for ever; the code keeps every entry in it.
  abbrev pub Tracked : Map PacketKey V → Order → Type 0
  Tracked m order = (k : PacketKey) (v : V) → lookup k m ≡ some v → Queued (stamp v) k order

  -- What is stored is put at the end of the order.
  pub Tracked-insert :
      (key : PacketKey) (v : V) (m : Map PacketKey V) (order : Order)
      → Tracked m order
      → Tracked (insert key v m) (order ++ (stamp v, key) ∷ [])
  Tracked-insert key v m order tr k w h = elim (Bool-cases (e.beq key k)) [
    | inl p ↦
        let same : key ≡ k = (e.beq_iff key k).0 p in
        let new : some v ≡ some w = sym (lookup-insert key k v m ∙ rw p) ∙ h in
        let value : v ≡ w = cc in rw (← value, ← same) (Queued-last (stamp v) key order)
    | inr p ↦
        Queued-push (stamp w) k (stamp v) key order
          (tr k w (sym (lookup-insert key k v m ∙ rw p) ∙ h))
  ]

  evict_entry_cases :
      (P : Map PacketKey V × S → Type 0) (t : ℕ) (key : PacketKey) (m : Map PacketKey V) (s : S)
      → P (m, s)
      → ((v : V) → lookup key m ≡ some v → P (remove key m, dropped v s))
      → P (evict_entry t key m s)
  unfolding evict_entry
  evict_entry_cases P t key m s stay go = elim (Option-cases (lookup key m)) [
    | inl p ↦ rw (p, evict_entry) stay
    | inr (v, p) ↦ elim (Bool-cases (stamp v == t)) [
      | inl q ↦ rw (p, evict_entry, q) (go v p)
      | inr q ↦ rw (p, evict_entry, q) stay
    ]
  ]

  -- Removing adds nothing, and removes only what was stored at that time.
  pub lookup-evict_entry :
      (t : ℕ) (key : PacketKey) (m : Map PacketKey V) (s : S) (k : PacketKey) (v : V)
      → lookup k (evict_entry t key m s).0 ≡ some v
      → (lookup k m ≡ some v) × ((key ≡ k) → (t ≡ stamp v) → ⊥)
  unfolding evict_entry
  lookup-evict_entry t key m s k v h = (
    ground (arith, lookup-remove key k m, e.beq_iff key k),
    λ same now_. ground (arith, lookup-remove key k m, e.beq_iff key k, ap (λ j. lookup j m) same),
  )

  pub evict_entry_keeps :
      (t : ℕ) (key : PacketKey) (m : Map PacketKey V) (s : S) (k : PacketKey) (v : V)
      → lookup k m ≡ some v
      → (t ≢ stamp v)
      → lookup k (evict_entry t key m s).0 ≡ some v
  unfolding evict_entry
  evict_entry_keeps t key m s k v h n = ground (arith, lookup-remove key k m, e.beq_iff key k)

  pub lookup-evict_loop :
      (limit now : ℕ) (order : Order) (m : Map PacketKey V) (s : S) (k : PacketKey) (v : V)
      → lookup k (evict_loop limit now m order s).0 ≡ some v
      → lookup k m ≡ some v
  unfolding evict_loop
  lookup-evict_loop limit now [] m s k v h = h
  lookup-evict_loop limit now ((t, key) ∷ order) m s k v h =
      elim (Bool-cases (leb (now - t) limit)) [
        | inl p ↦ rw p at h
        | inr p ↦
            (lookup-evict_entry t key m s k v (
              lookup-evict_loop limit now order (evict_entry t key m s).0 (evict_entry t key m s).1
                k v (rw p at h))).0
      ]

  -- What is young enough stays.
  pub evict_loop_keeps :
      (limit now : ℕ) (order : Order) (m : Map PacketKey V) (s : S) (k : PacketKey) (v : V)
      → lookup k m ≡ some v
      → now - stamp v ≤ limit
      → lookup k (evict_loop limit now m order s).0 ≡ some v
  unfolding evict_loop
  evict_loop_keeps limit now [] m s k v h young = h
  evict_loop_keeps limit now ((t, key) ∷ order) m s k v h young =
      elim (Bool-cases (leb (now - t) limit)) [
        | inl p ↦ rw p h
        | inr p ↦ rw p (
            evict_loop_keeps limit now order (evict_entry t key m s).0 (evict_entry t key m s).1 k v
              (evict_entry_keeps t key m s k v h (λ q. old t p (rw (← q) at young))) young)
      ]
    where
      old : (t : ℕ) → leb (now - t) limit ≡ false → now - t ≤ limit → ⊥
      old t p q = ground arith

  Tracked-evict_entry :
      (t : ℕ) (key : PacketKey) (order : Order) (m : Map PacketKey V) (s : S)
      → Tracked m ((t, key) ∷ order)
      → Tracked (evict_entry t key m s).0 order
  Tracked-evict_entry t key order m s tr k v h =
      let (before, gone) = lookup-evict_entry t key m s k v h in
      elim (tr k v before) [ inl (p, q) ↦ absurd (gone q p) | inr rest ↦ rest ]

  Distinct-evict_entry :
      (t : ℕ) (key : PacketKey) (m : Map PacketKey V) (s : S)
      → Distinct m
      → Distinct (evict_entry t key m s).0
  Distinct-evict_entry t key m s h =
      evict_entry_cases (λ r. Distinct r.0) t key m s h (λ v p. Distinct-remove key m h)

  -- What each removal keeps, the loop keeps.
  module _ (P : Map PacketKey V → S → Type 0)
      (keep : (key : PacketKey) (v : V) (m : Map PacketKey V) (s : S)
        → lookup key m ≡ some v
        → P m s
        → P (remove key m) (dropped v s)) where
    evict_entry_inv :
        (t : ℕ) (key : PacketKey) (m : Map PacketKey V) (s : S)
        → P m s
        → P (evict_entry t key m s).0 (evict_entry t key m s).1
    evict_entry_inv t key m s h =
        evict_entry_cases (λ r. P r.0 r.1) t key m s h (λ v p. keep key v m s p h)

    pub evict_loop_inv :
        (limit now : ℕ) (order : Order) (m : Map PacketKey V) (s : S)
        → P m s
        → let (m', order', s') = evict_loop limit now m order s in P m' s'
    unfolding evict_loop
    evict_loop_inv limit now [] m s h = h
    evict_loop_inv limit now ((t, key) ∷ order) m s h = elim (Bool-cases (leb (now - t) limit)) [
      | inl p ↦ rw p h
      | inr p ↦ rw p (
          evict_loop_inv limit now order (evict_entry t key m s).0 (evict_entry t key m s).1
            (evict_entry_inv t key m s h))
    ]

  Queued-young :
      (limit now t u : ℕ) (k : PacketKey) (order : Order)
      → now - t ≤ limit
      → All (λ p. t ≤ p.0) order
      → Queued u k order
      → now - u ≤ limit
  Queued-young limit now t u k [] h a q = absurd q
  Queued-young limit now t u k ((w, j) ∷ order) h a (inl (p, q)) = omega (arith, a.0)
  Queued-young limit now t u k ((w, j) ∷ order) h a (inr q) =
      Queued-young limit now t u k order h a.1 q

  -- What the loop leaves behind.
  pub record Evicted (limit now : ℕ) (before : Order) (m : Map PacketKey V) (order : Order)
      : Type 0 where
    pub tracked : Tracked m order
    pub sorted : Sorted order
    pub past : (t : ℕ) → Past t before → Past t order
    pub distinct : Distinct m
    pub young : (k : PacketKey) (v : V) → lookup k m ≡ some v → now - stamp v ≤ limit

  -- From entries that are all in a sorted order, only entries of at most the limit's age are left.
  pub evict_loop-Evicted :
      (limit now : ℕ) (order : Order) (m : Map PacketKey V) (s : S)
      → Tracked m order
      → Sorted order
      → Distinct m
      → let (m', order', s') = evict_loop limit now m order s in Evicted limit now order m' order'
  unfolding evict_loop
  evict_loop-Evicted limit now [] m s tr so di = record {
    tracked = tr;
    sorted = so;
    past = λ u h. h;
    distinct = di;
    young = λ k v h. absurd (tr k v h);
  }
  evict_loop-Evicted limit now ((t, key) ∷ order) m s tr so di =
      elim (Bool-cases (leb (now - t) limit)) [
        | inl p ↦ rw p (record {
          tracked = tr;
          sorted = so;
          past = λ u h. h;
          distinct = di;
          young = λ k v h.
              Queued-young limit now t (stamp v) k ((t, key) ∷ order) (within t p)
                (omega arith, so.0) (tr k v h);
        })
        | inr p ↦
            let after =
              evict_loop-Evicted limit now order (evict_entry t key m s).0 (evict_entry t key m s).1
                (Tracked-evict_entry t key order m s tr) so.1 (Distinct-evict_entry t key m s di) in
            rw p (record {
              tracked = after.tracked;
              sorted = after.sorted;
              past = λ u h. after.past u h.1;
              distinct = after.distinct;
              young = after.young;
            })
      ]
    where
      within : (t : ℕ) → leb (now - t) limit ≡ true → now - t ≤ limit
      within t p = ground arith
