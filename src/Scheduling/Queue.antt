-- ===== src/Scheduling/Queue.antt =====
-- `BoundedDropNewestQueue`. The mutex makes each operation one step; `pop_timeout` is modelled at the
-- moment its wait ends, by an item, by the close or by the timeout.
use agora_link.Prelude.{
  ℕ, suc, ◌+◌, ◌-◌, ◌%◌, ◌^◌, ◌≡◌, ◌≤◌, ◌<◌, refl, max, Bool, true, false, ◌||◌, leb, ◌==◌, List,
  [], ◌∷◌, ◌++◌, length, if◌then◌else◌, Result, ok, err, Bool-cases, inl, inr, arith, length-append,
  take, take-nil, append-nil, append_assoc, sym, ap, ◌∙◌,
}

pub record BoundedQueue (T : Type 0) : Type 0 where
  pub capacity : ℕ
  pub items : List T
  pub closed : Bool
  pub drops : ℕ
  pub peak : ℕ

pub data QueueError : Type 0 where
  zero_capacity : QueueError

pub data QueuePop (T : Type 0) : Type 0 where
  item : T → QueuePop T
  timeout closed_queue : QueuePop T

module _ {T : Type 0} where
  unfoldable pub new_queue : ℕ → Result QueueError (BoundedQueue T)
  new_queue capacity =
      if capacity == 0
      then err zero_capacity
      else ok (record { capacity = capacity; items = []; closed = false; drops = 0; peak = 0 })

  -- The result is whether the item was taken: `Err(item)` gives it back.
  abbrev push_unless : Bool → BoundedQueue T → T → BoundedQueue T × Bool
  push_unless true q x = (record q { drops = (q.drops + 1) % 2 ^ 64 }, false)
  push_unless false q x =
      (record q { items = q.items ++ x ∷ []; peak = max q.peak (length (q.items ++ x ∷ [])) }, true)

  unfoldable pub try_push : BoundedQueue T → T → BoundedQueue T × Bool
  try_push q x = push_unless (q.closed || leb q.capacity (length q.items)) q x

  abbrev pub nothing_to_pop : Bool → QueuePop T
  nothing_to_pop true = closed_queue
  nothing_to_pop false = timeout

  abbrev pop_items : BoundedQueue T → List T → BoundedQueue T × QueuePop T
  pop_items q [] = (q, nothing_to_pop q.closed)
  pop_items q (x ∷ xs) = (record q { items = xs }, item x)

  unfoldable pub pop_timeout : BoundedQueue T → BoundedQueue T × QueuePop T
  pop_timeout q = pop_items q q.items

  unfoldable pub close : BoundedQueue T → BoundedQueue T
  close q = record q { closed = true }

  -- A run of pushes, and the items that are popped until there is none.
  unfoldable pub push_all : BoundedQueue T → List T → BoundedQueue T
  unfolding try_push
  push_all q [] = q
  push_all q (x ∷ xs) = push_all (try_push q x).0 xs

  push-items :
      (q : BoundedQueue T) (x : T) (full : Bool)
      → q.closed || leb q.capacity (length q.items) ≡ full
      → ((try_push q x).0.items ≡ (if full then q.items else q.items ++ x ∷ []))
        × ((try_push q x).0.closed ≡ q.closed)
        × ((try_push q x).0.capacity ≡ q.capacity)
  unfolding try_push
  push-items q x true e = (
    ap (λ b. (push_unless b q x).0.items) e,
    ap (λ b. (push_unless b q x).0.closed) e,
    ap (λ b. (push_unless b q x).0.capacity) e,
  )
  push-items q x false e = (
    ap (λ b. (push_unless b q x).0.items) e,
    ap (λ b. (push_unless b q x).0.closed) e,
    ap (λ b. (push_unless b q x).0.capacity) e,
  )

  take-full :
      (cap : ℕ) (ys : List T) (x : T) (xs : List T)
      → cap ≤ length ys
      → ys ++ take (cap - length ys) xs ≡ ys ++ take (cap - length ys) (x ∷ xs)
  take-full cap ys x xs le =
      ap (λ n. ys ++ take n xs) {x = cap - length ys} {y = 0} (omega arith)
      ∙ ap (λ n. ys ++ take n (x ∷ xs)) {x = 0} {y = cap - length ys} (omega arith)

  take-room :
      (cap : ℕ) (ys : List T) (x : T) (xs : List T)
      → length ys < cap
      → (ys ++ x ∷ []) ++ take (cap - length (ys ++ x ∷ [])) xs
        ≡ ys ++ take (cap - length ys) (x ∷ xs)
  take-room cap ys x xs lt =
      append_assoc ys (x ∷ []) (take (cap - length (ys ++ x ∷ [])) xs)
      ∙ ap (λ n. ys ++ take n (x ∷ xs)) {x = suc (cap - length (ys ++ x ∷ []))}
          {y = cap - length ys} (omega (arith, length-append ys (x ∷ [])))

  -- On an open queue within its capacity, a run of pushes adds the oldest items that there is room for,
  -- in order, and drops the rest; the queue stays within its capacity.
  pub push_all-items :
      (q : BoundedQueue T) (xs : List T)
      → q.closed ≡ false
      → length q.items ≤ q.capacity
      → ((push_all q xs).items ≡ q.items ++ take (q.capacity - length q.items) xs)
        × (length (push_all q xs).items ≤ q.capacity)
  unfolding push_all
  push_all-items q [] c h = (
    sym (ap (λ ys. q.items ++ ys) (take-nil (q.capacity - length q.items)) ∙ append-nil q.items),
    h,
  )
  push_all-items q (x ∷ xs) c h = elim (Bool-cases (leb q.capacity (length q.items))) [
    | inl p ↦
        let (same, open_, cap) = push-items q x true (rw (c, p) refl) in
        let (rest, fits) = push_all-items (try_push q x).0 xs (open_ ∙ c) (rw (same, cap) h) in
        (
          (rw (same, cap) at rest) ∙ take-full q.capacity q.items x xs (ground (arith, p)),
          omega (arith, fits, cap),
        )
    | inr p ↦
        let (same, open_, cap) = push-items q x false (rw (c, p) refl) in
        let (rest, fits) =
          push_all-items (try_push q x).0 xs (open_ ∙ c)
            (rw (same, cap) (ground (arith, p, length-append q.items (x ∷ [])))) in
        (
          (rw (same, cap) at rest) ∙ take-room q.capacity q.items x xs (ground (arith, p)),
          omega (arith, fits, cap),
        )
  ]
