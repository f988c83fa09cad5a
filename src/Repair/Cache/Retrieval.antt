-- ===== src/Repair/Cache/Retrieval.antt =====
-- What a repair request finds in the cache.
use agora_link.Prelude.{
  ℕ, ◌-◌, ◌≤◌, ◌≡◌, ◌≢◌, refl, sym, ap, ◌∙◌, List, [], ◌∷◌, All, false, Bool-cases, Option, none,
  some, inl, inr, Option-cases,
}
use mathlib.Core.Option
use agora_link.Map.{lookup, lookup-insert, Distinct, Distinct-insert}
use agora_link.Wire.Nack.{PacketKey}
use agora_link.Repair.{key_eq, key_beq, key_beq_iff}
use agora_link.Repair.Expiry.{
  evict_loop_keeps, lookup-evict_loop, Evicted, evict_loop-Evicted, Tracked, Tracked-insert, Sorted,
  Sorted-push, Past, Past-push, Past-mono,
}
use agora_link.Repair.Cache.Accounting.{lookup_stored}
use agora_link.Repair.Cache.{
  CacheEntry, RepairCache, entry_time, drop_entry, evict_expired, store, insert_packet, get,
}

lookup-insert_packet :
    (c : RepairCache) (key : PacketKey) (bytes : List ℕ) (now : ℕ)
    → lookup key (insert_packet c key bytes now).packets
      ≡ some (record { bytes = bytes; sent_at = now })
unfolding insert_packet store
lookup-insert_packet c key bytes now =
    lookup_stored key (record { bytes = bytes; sent_at = now }) (evict_expired c now).packets

key_beq_apart : (j k : PacketKey) → (j ≢ k) → key_beq j k ≡ false
key_beq_apart j k apart = elim (Bool-cases (key_beq j k)) [
  | inl p ↦ absurd (apart ((key_beq_iff j k).0 p))
  | inr p ↦ p
]

-- A call of the cache other than `clear`.
pub data CacheCall : Type 0 where
  inserts : PacketKey → List ℕ → ℕ → CacheCall
  gets : PacketKey → ℕ → CacheCall
  evicts : ℕ → CacheCall

abbrev call_cache : RepairCache → CacheCall → RepairCache
call_cache c (inserts key bytes now) = insert_packet c key bytes now
call_cache c (gets key now) = (get c key now).0
call_cache c (evicts now) = evict_expired c now

abbrev pub call_cache_all : RepairCache → List CacheCall → RepairCache
call_cache_all c [] = c
call_cache_all c (call ∷ calls) = call_cache_all (call_cache c call) calls

-- A call within the time to live of a packet that was put in at `then_`, which does not put in another
-- datagram for that packet.
abbrev Spares : ℕ → PacketKey → ℕ → CacheCall → Type 0
Spares ttl key then_ (inserts other bytes now) = (other ≢ key) × (now - then_ ≤ ttl)
Spares ttl key then_ (gets other now) = now - then_ ≤ ttl
Spares ttl key then_ (evicts now) = now - then_ ≤ ttl

lookup-evict_young :
    (c : RepairCache) (key : PacketKey) (v : CacheEntry) (now : ℕ)
    → lookup key c.packets ≡ some v
    → now - v.sent_at ≤ c.ttl
    → lookup key (evict_expired c now).packets ≡ some v
unfolding evict_expired
lookup-evict_young c key v now h young =
    evict_loop_keeps entry_time drop_entry c.ttl now c.order c.packets c.counters key v h young

-- The time to live is never changed.
ttl-call_cache : (c : RepairCache) (call : CacheCall) → (call_cache c call).ttl ≡ c.ttl
unfolding insert_packet store get evict_expired
ttl-call_cache c (inserts key bytes now) = refl
ttl-call_cache c (gets key now) = refl
ttl-call_cache c (evicts now) = refl

call_cache-keeps :
    (c : RepairCache) (key : PacketKey) (v : CacheEntry) (call : CacheCall)
    → lookup key c.packets ≡ some v
    → Spares c.ttl key v.sent_at call
    → lookup key (call_cache c call).packets ≡ some v
unfolding insert_packet store get
call_cache-keeps c key v (inserts other bytes now) h (apart, young) =
    lookup-insert other key (record { bytes = bytes; sent_at = now }) (evict_expired c now).packets
    ∙ rw (key_beq_apart other key apart) (lookup-evict_young c key v now h young)
call_cache-keeps c key v (gets other now) h young = lookup-evict_young c key v now h young
call_cache-keeps c key v (evicts now) h young = lookup-evict_young c key v now h young

call_cache_all-keeps :
    (c : RepairCache) (key : PacketKey) (v : CacheEntry) (calls : List CacheCall)
    → lookup key c.packets ≡ some v
    → All (Spares c.ttl key v.sent_at) calls
    → (lookup key (call_cache_all c calls).packets ≡ some v)
      × ((call_cache_all c calls).ttl ≡ c.ttl)
call_cache_all-keeps c key v [] h spares = (h, refl)
call_cache_all-keeps c key v (call ∷ calls) h (spare, spares) =
    let same : (call_cache c call).ttl ≡ c.ttl = ttl-call_cache c call in
    let (kept, rest) =
      call_cache_all-keeps (call_cache c call) key v calls (call_cache-keeps c key v call h spare)
        (rw (same) spares) in
    (kept, rest ∙ same)

-- A datagram that was put into the cache is found for as long as its time to live lasts, whatever was
-- looked for, was put in for other packets or was evicted in the meantime, at times within that time to
-- live; where the cache was not cleared and the packet was not put in again.
pub get-insert_packet :
    (c : RepairCache) (key : PacketKey) (bytes : List ℕ) (then_ now : ℕ) (calls : List CacheCall)
    → All (Spares c.ttl key then_) calls
    → now - then_ ≤ c.ttl
    → (get (call_cache_all (insert_packet c key bytes then_) calls) key now).1 ≡ some bytes
unfolding get
get-insert_packet c key bytes then_ now calls spares young =
    let v : CacheEntry = record { bytes = bytes; sent_at = then_ } in
    let c' : RepairCache = insert_packet c key bytes then_ in
    let same : c'.ttl ≡ c.ttl = ttl-call_cache c (inserts key bytes then_) in
    let (found, kept) =
      call_cache_all-keeps c' key v calls (lookup-insert_packet c key bytes then_)
        (rw (same) spares) in
    ap (Option.map (λ e. e.bytes))
      (lookup-evict_young (call_cache_all c' calls) key v now found (rw (kept, same) young))

-- Every entry is in the order, oldest first, once, and none is later than `now`.
pub record IsTidy (c : RepairCache) (now : ℕ) : Type 0 where
  pub tracked : Tracked entry_time drop_entry c.packets c.order
  pub sorted : Sorted c.order
  pub distinct : Distinct c.packets
  pub past : Past now c.order

evict_expired-IsTidy :
    (c : RepairCache) (then_ now : ℕ)
    → then_ ≤ now
    → IsTidy c then_
    → IsTidy (evict_expired c now) now
      × ((k : PacketKey) (e : CacheEntry)
          → lookup k (evict_expired c now).packets ≡ some e
          → now - e.sent_at ≤ c.ttl)
unfolding evict_expired
evict_expired-IsTidy c then_ now le h =
    let left : Evicted entry_time drop_entry c.ttl now c.order (evict_expired c now).packets
        (evict_expired c now).order =
      evict_loop-Evicted entry_time drop_entry c.ttl now c.order c.packets c.counters h.tracked
        h.sorted h.distinct in
    (
      record {
        tracked = left.tracked;
        sorted = left.sorted;
        distinct = left.distinct;
        past = left.past now (Past-mono then_ now c.order le h.past);
      },
      left.young,
    )

-- On a clock that does not go back, inserting keeps the cache in order.
pub insert_packet-IsTidy :
    (c : RepairCache) (key : PacketKey) (bytes : List ℕ) (then_ now : ℕ)
    → then_ ≤ now
    → IsTidy c then_
    → IsTidy (insert_packet c key bytes now) now
unfolding insert_packet store
insert_packet-IsTidy c key bytes then_ now le h =
    let (t, young) = evict_expired-IsTidy c then_ now le h in
    let c' : RepairCache = evict_expired c now in
    let v : CacheEntry = record { bytes = bytes; sent_at = now } in
    record {
      tracked = Tracked-insert entry_time drop_entry key v c'.packets c'.order t.tracked;
      sorted = Sorted-push now key c'.order t.past t.sorted;
      distinct = Distinct-insert key v c'.packets t.distinct;
      past = Past-push now key c'.order t.past;
    }

none-ne-some : {l : List ℕ} → ◌≢◌ {A = Option (List ℕ)} none (some l)
none-ne-some h = cc

lookup-evict_expired :
    (c : RepairCache) (now : ℕ) (k : PacketKey) (e : CacheEntry)
    → lookup k (evict_expired c now).packets ≡ some e
    → lookup k c.packets ≡ some e
unfolding evict_expired
lookup-evict_expired c now k e h =
    lookup-evict_loop entry_time drop_entry c.ttl now c.order c.packets c.counters k e h

-- What a tidy cache returns is a stored datagram of that packet, no older than the time to live:
-- an expired datagram is never sent again.
pub get_young :
    (c : RepairCache) (key : PacketKey) (bytes : List ℕ) (then_ now : ℕ)
    → IsTidy c then_
    → then_ ≤ now
    → (get c key now).1 ≡ some bytes
    → (e : CacheEntry) × (lookup key c.packets ≡ some e)
      × (e.bytes ≡ bytes)
      × (now - e.sent_at ≤ c.ttl)
unfolding get
get_young c key bytes then_ now h le found =
    elim (Option-cases (lookup key (evict_expired c now).packets)) [
      | inl p ↦ absurd (none-ne-some (sym (ap (Option.map (λ e. e.bytes)) p) ∙ found))
      | inr (e, p) ↦ (
        e,
        lookup-evict_expired c now key e p,
        same_bytes e p,
        (evict_expired-IsTidy c then_ now le h).1 key e p,
      )
    ]
  where
    same_bytes :
        (e : CacheEntry) → lookup key (evict_expired c now).packets ≡ some e → e.bytes ≡ bytes
    same_bytes e p =
        let both : some e.bytes ≡ some bytes = sym (ap (Option.map (λ e. e.bytes)) p) ∙ found in cc
