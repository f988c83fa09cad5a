-- ===== src/Repair/Suppression/Memory.antt =====
-- The memory of the suppression is bounded in time.
use agora_link.Prelude.{ℕ, ◌-◌, ◌≤◌, ◌≡◌, sym, ◌∙◌, some, arith, Bool-cases, inl, inr}
use agora_link.Map.{lookup, lookup-insert, Distinct, Distinct-insert}
use agora_link.Wire.Nack.{PacketKey}
use agora_link.Repair.{key_eq, key_beq}
use agora_link.Repair.Expiry.{
  Evicted, evict_loop-Evicted, Tracked, Sorted, Sorted-push, Tracked-insert, Past, Past-push,
  Past-mono,
}
use agora_link.Repair.Suppression.{
  RepairSuppression, sent_time, count_evicted, retention, evict, within, answer, should_send,
}

-- Every remembered repair is in the order, oldest first, once, and none is later than `now`.
pub record IsTidy (s : RepairSuppression) (now : ℕ) : Type 0 where
  pub tracked : Tracked sent_time count_evicted s.last_sent s.order
  pub sorted : Sorted s.order
  pub distinct : Distinct s.last_sent
  pub past : Past now s.order

-- Remembered repairs are no older than four intervals.
abbrev pub Fresh : RepairSuppression → ℕ → Type 0
Fresh s now =
    (k : PacketKey) (t : ℕ) → lookup k s.last_sent ≡ some t → now - t ≤ retention s.interval

evict-IsTidy :
    (s : RepairSuppression) (then_ now : ℕ)
    → then_ ≤ now
    → IsTidy s then_
    → IsTidy (evict s now) now × Fresh (evict s now) now
unfolding evict
evict-IsTidy s then_ now le h =
    let left : Evicted sent_time count_evicted (retention s.interval) now s.order
        (evict s now).last_sent (evict s now).order =
      evict_loop-Evicted sent_time count_evicted (retention s.interval) now s.order s.last_sent
        s.stats h.tracked h.sorted h.distinct in
    (
      record {
        tracked = left.tracked;
        sorted = left.sorted;
        distinct = left.distinct;
        past = left.past now (Past-mono then_ now s.order le h.past);
      },
      left.young,
    )

answer-IsTidy :
    (s : RepairSuppression) (key : PacketKey) (now : ℕ)
    → IsTidy s now
    → Fresh s now
    → IsTidy (answer s key now).0 now × Fresh (answer s key now).0 now
unfolding answer
answer-IsTidy s key now h fresh =
    elim (Bool-cases (within s.interval now (lookup key s.last_sent))) [
      | inl p ↦ rw p (
        record { tracked = h.tracked; sorted = h.sorted; distinct = h.distinct; past = h.past },
        fresh,
      )
      | inr p ↦ rw p (
        record {
          tracked = Tracked-insert sent_time count_evicted key now s.last_sent s.order h.tracked;
          sorted = Sorted-push now key s.order h.past h.sorted;
          distinct = Distinct-insert key now s.last_sent h.distinct;
          past = Past-push now key s.order h.past;
        },
        λ k t e. elim (Bool-cases (key_beq key k)) [
          | inl q ↦
              let new : some now ≡ some t = sym (lookup-insert key k now s.last_sent ∙ rw q) ∙ e in
              let value : now ≡ t = cc in omega arith
          | inr q ↦ fresh k t (sym (lookup-insert key k now s.last_sent ∙ rw q) ∙ e)
        ],
      )
    ]

-- On a clock that does not go back, a request keeps the suppression's memory in order, and leaves in
-- it only repairs that were sent at most four intervals ago.
pub should_send-IsTidy :
    (s : RepairSuppression) (key : PacketKey) (then_ now : ℕ)
    → IsTidy s then_
    → then_ ≤ now
    → IsTidy (should_send s key now).0 now × Fresh (should_send s key now).0 now
unfolding should_send
should_send-IsTidy s key then_ now h le =
    let (tidy, fresh) = evict-IsTidy s then_ now le h in
    answer-IsTidy (evict s now) key now tidy fresh
