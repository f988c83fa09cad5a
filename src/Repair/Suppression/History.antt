-- ===== src/Repair/Suppression/History.antt =====
-- Which repairs are sent, told by the history of those that were.
use agora_link.Prelude.{
  ℕ, ◌-◌, ◌≤◌, ◌≡◌, refl, sym, ap, ◌∙◌, not, ◌&&◌, ◌||◌, Bool, true, false, ltb, List, [], ◌∷◌,
  ◌++◌, Option, none, some, arith, Bool-cases, if_cases, ok-injective, Result, ◌==◌, inl, inr, ok,
}
use mathlib.Core.Path.{subst}
use agora_link.Map.{insert, lookup, lookup-insert}
use agora_link.Wire.Nack.{PacketKey}
use agora_link.Repair.{duration_max, key_eq, key_beq, key_beq_iff}
use agora_link.Repair.Suppression.{
  RepairError, RepairSuppression, evict, within, answer, should_send, new,
}
use agora_link.Repair.Suppression.Spacing.{
  within-evict, interval-evict, interval-answer, should_send-within,
}

-- The repairs that were sent, the last one first.
abbrev note_repair : Bool → PacketKey → ℕ → List (PacketKey × ℕ) → List (PacketKey × ℕ)
note_repair true key now sent = (key, now) ∷ sent
note_repair false key now sent = sent

-- A row of requests, with the repairs that they send.
abbrev pub request_all :
    RepairSuppression
    → List (PacketKey × ℕ)
    → List (PacketKey × ℕ)
    → RepairSuppression × List (PacketKey × ℕ)
request_all s sent [] = (s, sent)
request_all s sent ((key, now) ∷ calls) =
    let reply = should_send s key now in
    request_all reply.0 (note_repair reply.1 key now sent) calls

-- A repair of the packet was sent less than the interval ago.
abbrev pub repaired_within : ℕ → PacketKey → ℕ → List (PacketKey × ℕ) → Bool
repaired_within interval key now [] = false
repaired_within interval key now ((other, at) ∷ sent) =
    key_beq other key && ltb (now - at) interval || repaired_within interval key now sent

-- The clock does not go back.
abbrev pub Rises : ℕ → List (PacketKey × ℕ) → Type 0
Rises low [] = Unit
Rises low ((key, now) ∷ calls) = (low ≤ now) × Rises now calls

-- From `low` on, the memory says of every packet what the history says.
abbrev Recalls : RepairSuppression → List (PacketKey × ℕ) → ℕ → Type 0
Recalls s sent low =
    (key : PacketKey) (now : ℕ)
    → low ≤ now
    → within s.interval now (lookup key s.last_sent) ≡ repaired_within s.interval key now sent

within_later :
    (interval now later : ℕ) (last : Option ℕ)
    → now ≤ later
    → within interval now last ≡ false
    → within interval later last ≡ false
within_later interval now later none le h = refl
within_later interval now later (some t) le h = ground (arith, h, le)

or_nothing : (a b : Bool) → b ≡ false → a ≡ (true && a || b)
or_nothing true b h = refl
or_nothing false b h = sym h

module _ (s : RepairSuppression) (sent : List (PacketKey × ℕ)) where
  evict-Recalls :
      (low now : ℕ)
      → s.interval ≤ duration_max
      → low ≤ now
      → Recalls s sent low
      → Recalls (evict s now) sent now
  evict-Recalls low now real le h key later from =
      rw (interval-evict s now)
        (within-evict s now later from real key ∙ h key later (omega (arith, le, from)))

  answer-Recalls :
      (key : PacketKey) (now : ℕ)
      → Recalls s sent now
      → Recalls (answer s key now).0 (note_repair (answer s key now).1 key now sent) now
  unfolding answer
  answer-Recalls key now h other later from =
      elim (Bool-cases (within s.interval now (lookup key s.last_sent))) [
        | inl p ↦ rw (p) (h other later from)
        | inr p ↦ elim (Bool-cases (key_beq key other)) [
          | inl q ↦
              let same : key ≡ other = (key_beq_iff key other).0 q in
              let found : lookup other (insert key now s.last_sent) ≡ some now =
                lookup-insert key other now s.last_sent ∙ rw (q) refl in
              let none_sent : repaired_within s.interval other later sent ≡ false =
                sym (h other later from)
                ∙ within_later s.interval now later (lookup other s.last_sent) from
                    (rw (← same) p) in
              rw (p, found, q) (or_nothing (ltb (later - now) s.interval) _ none_sent)
          | inr q ↦
              let found : lookup other (insert key now s.last_sent) ≡ lookup other s.last_sent =
                lookup-insert key other now s.last_sent ∙ rw (q) refl in
              rw (p, found, q) (h other later from)
        ]
      ]

request_all-Recalls :
    (s : RepairSuppression) (sent : List (PacketKey × ℕ)) (low : ℕ) (calls : List (PacketKey × ℕ))
    (key : PacketKey) (now : ℕ)
    → s.interval ≤ duration_max
    → Rises low (calls ++ (key, now) ∷ [])
    → Recalls s sent low
    → Recalls (request_all s sent calls).0 (request_all s sent calls).1 now
      × ((request_all s sent calls).0.interval ≡ s.interval)
unfolding should_send
request_all-Recalls s sent low [] key now real (le, _) h =
    (λ other later from. h other later (omega (arith, le, from)), refl)
request_all-Recalls s sent low ((other, at) ∷ calls) key now real (le, rises) h =
    let reply : RepairSuppression × Bool = should_send s other at in
    let same : reply.0.interval ≡ s.interval =
      interval-answer (evict s at) other at ∙ interval-evict s at in
    let (recalls, kept) =
      request_all-Recalls reply.0 (note_repair reply.1 other at sent) at calls key now
        (rw (same) real) rises
        (answer-Recalls (evict s at) sent other at (evict-Recalls s sent low at real le h)) in
    (recalls, kept ∙ same)

new-Recalls :
    (interval : ℕ) (s : RepairSuppression)
    → new interval ≡ ok s
    → (s.interval ≡ interval) × Recalls s [] 0
unfolding new lookup
new-Recalls interval s made =
    if_cases
      (λ (r : Result RepairError RepairSuppression).
        r ≡ ok s → (s.interval ≡ interval) × Recalls s [] 0)
      (interval == 0) _ _ (λ _ h. cc)
      (λ _ h.
        subst (λ (u : RepairSuppression). (u.interval ≡ interval) × Recalls u [] 0) (ok-injective h)
          (refl, λ key now from. refl))
      made

-- On a clock that does not go back, after any row of requests to a new suppression, a repair of a packet
-- is sent exactly when no repair of that packet was sent less than the interval ago; what the memory
-- evicts makes no difference.
pub should_send_iff :
    (interval : ℕ) (s : RepairSuppression) (calls : List (PacketKey × ℕ)) (key : PacketKey)
    (now : ℕ)
    → new interval ≡ ok s
    → interval ≤ duration_max
    → Rises 0 (calls ++ (key, now) ∷ [])
    → (should_send (request_all s [] calls).0 key now).1
      ≡ not (repaired_within interval key now (request_all s [] calls).1)
should_send_iff interval s calls key now made real rises =
    let (set, fresh) = new-Recalls interval s made in
    let (recalls, kept) = request_all-Recalls s [] 0 calls key now (rw (set) real) rises fresh in
    should_send-within (request_all s [] calls).0 key now (rw (kept, set) real)
    ∙ ap not (recalls key now (omega arith) ∙ rw (kept, set) refl)
