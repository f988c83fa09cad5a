-- ===== src/Repair/Suppression/Spacing.antt =====
-- Repairs of one packet are an interval apart.
use agora_link.Prelude.{
  ℕ, ◌-◌, ◌≤◌, ◌<◌, ◌≡◌, ◌≢◌, refl, sym, ap, ◌∙◌, not, Bool, true, false, List, [], ◌∷◌, Option,
  none, some, All, arith, Bool-cases, inl, inr, le→ltb_false, lt→ltb,
}
use agora_link.Map.{lookup, lookup-insert}
use agora_link.Wire.Nack.{PacketKey}
use agora_link.Repair.{duration_max, key_eq, key_beq, key_beq_iff}
use agora_link.Repair.Expiry.{evict_loop_keeps, lookup-evict_loop}
use agora_link.Repair.Suppression.{
  RepairSuppression, sent_time, count_evicted, retention, evict, within, answer, should_send,
  replies,
}

none-ne-some : {t : ℕ} → none ≢ some t
none-ne-some h = cc

-- A time that is not kept is past the interval.
expired :
    (interval now t : ℕ)
    → interval ≤ duration_max
    → (now - t ≤ retention interval → ⊥)
    → within interval now (some t) ≡ false
expired interval now t real old = le→ltb_false (now - t) interval (omega arith)

same_within :
    (interval now : ℕ) (before after : Option ℕ)
    → interval ≤ duration_max
    → ((t : ℕ) → after ≡ some t → before ≡ some t)
    → ((t : ℕ) → before ≡ some t → now - t ≤ retention interval → after ≡ some t)
    → within interval now after ≡ within interval now before
same_within interval now none none real sub keep = refl
same_within interval now (some t) none real sub keep =
    sym (expired interval now t real (λ young. none-ne-some (keep t refl young)))
same_within interval now before (some t) real sub keep = rw (sub t refl)

module _ (s : RepairSuppression) (now later : ℕ) (from : now ≤ later)
    (real : s.interval ≤ duration_max) (k : PacketKey) where
  -- No test sees the eviction, then or later: it drops only what is past the interval.
  pub within-evict :
      within s.interval later (lookup k (evict s now).last_sent)
      ≡ within s.interval later (lookup k s.last_sent)
  unfolding evict
  within-evict =
      same_within s.interval later (lookup k s.last_sent) _ real
        (lookup-evict_loop sent_time count_evicted (retention s.interval) now s.order s.last_sent
          s.stats k)
        (λ t h young.
          evict_loop_keeps sent_time count_evicted (retention s.interval) now s.order s.last_sent
            s.stats k t h (omega (arith, from, young)))

pub interval-evict : (s : RepairSuppression) (now : ℕ) → (evict s now).interval ≡ s.interval
unfolding evict
interval-evict s now = refl

answer_iff :
    (s : RepairSuppression) (k : PacketKey) (now : ℕ)
    → (answer s k now).1 ≡ not (within s.interval now (lookup k s.last_sent))
unfolding answer
answer_iff s k now = ground arith

-- The test is made on the memory as it was; what the queue evicts makes no difference.
pub should_send-within :
    (s : RepairSuppression) (k : PacketKey) (now : ℕ)
    → s.interval ≤ duration_max
    → (should_send s k now).1 ≡ not (within s.interval now (lookup k s.last_sent))
unfolding should_send
should_send-within s k now real =
    answer_iff (evict s now) k now
    ∙ ap not (rw interval-evict (within-evict s now now (omega arith) real k))

answer-within :
    (s : RepairSuppression) (j : PacketKey) (now : ℕ)
    → within s.interval now (lookup j s.last_sent) ≡ true
    → (answer s j now).0.last_sent ≡ s.last_sent
unfolding answer
answer-within s j now h = rw h

answer_other :
    (s : RepairSuppression) (j k : PacketKey) (now : ℕ)
    → key_beq j k ≡ false
    → lookup k (answer s j now).0.last_sent ≡ lookup k s.last_sent
unfolding answer
answer_other s j k now h = elim (Bool-cases (within s.interval now (lookup j s.last_sent))) [
  | inl p ↦ rw p
  | inr p ↦ rw p (lookup-insert j k now s.last_sent ∙ rw h)
]

pub interval-answer :
    (s : RepairSuppression) (j : PacketKey) (now : ℕ) → (answer s j now).0.interval ≡ s.interval
unfolding answer
interval-answer s j now = ground arith

answer-remembers :
    (s : RepairSuppression) (j k : PacketKey) (now t : ℕ)
    → lookup k s.last_sent ≡ some t
    → now - t < s.interval
    → lookup k (answer s j now).0.last_sent ≡ some t
answer-remembers s j k now t h young = elim (Bool-cases (key_beq j k)) [
  | inl p ↦
      let same : j ≡ k = (key_beq_iff j k).0 p in
      rw (answer-within s j now (rw (same, h) (lt→ltb (now - t) s.interval young))) h
  | inr p ↦ answer_other s j k now p ∙ h
]

-- While the interval lasts, the time of a packet's last repair stays.
remembered :
    (s : RepairSuppression) (j : PacketKey) (now : ℕ) (k : PacketKey) (t : ℕ)
    → s.interval ≤ duration_max
    → lookup k s.last_sent ≡ some t
    → now - t < s.interval
    → (lookup k (should_send s j now).0.last_sent ≡ some t)
      × ((should_send s j now).0.interval ≡ s.interval)
unfolding should_send evict
remembered s j now k t real h young = (
  answer-remembers (evict s now) j k now t
      (evict_loop_keeps sent_time count_evicted (retention s.interval) now s.order s.last_sent
        s.stats k t h (omega arith))
      young,
  interval-answer (evict s now) j now,
)

-- Each reply about the packet `k` is a refusal.
abbrev pub Refused : PacketKey → List (PacketKey × Bool) → Type 0
Refused k = All (λ r. r.0 ≡ k → r.1 ≡ false)

Refused-while :
    (s : RepairSuppression) (k : PacketKey) (t : ℕ) (calls : List (PacketKey × ℕ))
    → s.interval ≤ duration_max
    → lookup k s.last_sent ≡ some t
    → All (λ c. c.1 - t < s.interval) calls
    → Refused k (replies s calls)
unfolding replies
Refused-while s k t [] real h young = tt
Refused-while s k t ((j, now) ∷ calls) real h young =
    let (kept, same) = remembered s j now k t real h young.0 in
    (
      λ e.
          should_send-within s j now real
          ∙ ap not {y = true} (rw (e, h) (lt→ltb (now - t) s.interval young.0)),
      Refused-while (should_send s j now).0 k t calls (rw same real) kept (rw same young.1),
    )

sent_is_remembered :
    (s : RepairSuppression) (k : PacketKey) (now : ℕ)
    → (answer s k now).1 ≡ true
    → lookup k (answer s k now).0.last_sent ≡ some now
unfolding answer
sent_is_remembered s k now h = elim (Bool-cases (within s.interval now (lookup k s.last_sent))) [
  | inl p ↦ cc
  | inr p ↦ rw p (lookup-insert k k now s.last_sent ∙ rw ((key_beq_iff k k).1 refl))
]

-- Once a repair of a packet is sent, every further request for that packet within the interval is
-- refused, whatever other packets are asked for in between.
pub should_send-spaced :
    (s : RepairSuppression) (k : PacketKey) (t : ℕ) (calls : List (PacketKey × ℕ))
    → s.interval ≤ duration_max
    → (should_send s k t).1 ≡ true
    → All (λ c. c.1 - t < s.interval) calls
    → Refused k (replies (should_send s k t).0 calls)
unfolding should_send
should_send-spaced s k t calls real sent young =
    let same : (should_send s k t).0.interval ≡ s.interval =
      interval-answer (evict s t) k t ∙ interval-evict s t in
    Refused-while (should_send s k t).0 k t calls (rw same real)
      (sent_is_remembered (evict s t) k t sent) (rw same young)
