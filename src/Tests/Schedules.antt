-- ===== src/Tests/Schedules.antt =====
-- The sender's queue and cadence on small inputs.
use agora_link.Prelude.{ℕ, ◌+◌, ◌-◌, ◌≡◌, ◌≤◌, refl, [], ◌∷◌, ◌++◌, length, take, false, err, arith}
use agora_link.Scheduling.Queue.{
  BoundedQueue, try_push, push_all, pop_timeout, close, item, closed_queue, push_all-items,
  new_queue, zero_capacity,
}
use agora_link.Scheduling.Cadence.{
  DeadlineCadence, next_deadline_ns, next_deadline_ns-apart, next_deadline_ns-resumes,
}

abbrev two_places : BoundedQueue ℕ
two_places = record { capacity = 2; items = 1 ∷ []; closed = false; drops = 0; peak = 1 }

third_dropped : (try_push (try_push two_places 2).0 3).1 ≡ false
unfolding try_push
third_dropped = refl

first_popped : (pop_timeout two_places).1 ≡ item 1
unfolding pop_timeout
first_popped = refl

closed_when_empty : (pop_timeout (close (pop_timeout two_places).0)).1 ≡ closed_queue
unfolding pop_timeout close
closed_when_empty = refl

no_places : new_queue {T = ℕ} 0 ≡ err zero_capacity
unfolding new_queue
no_places = refl

push_all-items_example :
    ((push_all two_places (2 ∷ 3 ∷ [])).items
      ≡ two_places.items ++ take (2 - length two_places.items) (2 ∷ 3 ∷ []))
    × (length (push_all two_places (2 ∷ 3 ∷ [])).items ≤ 2)
push_all-items_example = push_all-items two_places (2 ∷ 3 ∷ []) refl (omega arith)

abbrev every_ten : DeadlineCadence
every_ten = record { interval_ns = 10; next_ns = 20 }

every_ten_apart :
    (5 ≤ (next_deadline_ns every_ten 5).1)
    × (12 ≤ (next_deadline_ns (next_deadline_ns every_ten 5).0 12).1)
    × ((next_deadline_ns every_ten 5).1 + 10
        ≤ (next_deadline_ns (next_deadline_ns every_ten 5).0 12).1)
unfolding next_deadline_ns
every_ten_apart = next_deadline_ns-apart every_ten 5 12 (omega arith)

next_deadline_ns-resumes_example :
    ((next_deadline_ns every_ten 95).1 ≡ 95)
    × ((next_deadline_ns (next_deadline_ns every_ten 95).0 96).1 ≡ 95 + 10)
next_deadline_ns-resumes_example =
    next_deadline_ns-resumes every_ten 95 96 (omega arith) (omega arith) (omega arith)
