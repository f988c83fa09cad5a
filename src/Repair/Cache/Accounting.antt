-- ===== src/Repair/Cache/Accounting.antt =====
-- The byte count of the cache is the size of what it holds.
use agora_link.Prelude.{ℕ, ◌+◌, ◌-◌, ◌≡◌, refl, ap, ◌∙◌, List, some, arith}
use agora_link.Map.{
  Map, lookup, insert, total, weight, total-insert, total-remove, lookup-insert, Distinct,
  Distinct-insert, Distinct-remove,
}
use agora_link.Wire.Nack.{PacketKey}
use agora_link.Repair.{key_eq, key_beq_iff}
use agora_link.Repair.Expiry.{evict_loop_inv}
use agora_link.Repair.Cache.{
  CacheEntry, Counters, RepairCache, entry_len, entry_time, drop_entry, evict_expired, store,
  insert_packet, get, clear,
}

-- The byte counter is the sum of the stored lengths, and no packet is stored twice.
abbrev Counts : Map PacketKey CacheEntry → Counters → Type 0
Counts m c = (c.bytes ≡ total entry_len m) × Distinct m

abbrev pub IsCounted : RepairCache → Type 0
IsCounted c = Counts c.packets c.counters

evict_expired-IsCounted :
    (c : RepairCache) (now : ℕ) → IsCounted c → IsCounted (evict_expired c now)
unfolding evict_expired
evict_expired-IsCounted c now h =
    evict_loop_inv entry_time drop_entry Counts
      (λ key v m s e k. (
        omega (arith, total-remove entry_len key m k.1, ap (weight entry_len) e),
        Distinct-remove key m k.1,
      ))
      c.ttl now c.order c.packets c.counters h

pub lookup_stored :
    (key : PacketKey) (v : CacheEntry) (m : Map PacketKey CacheEntry)
    → lookup key (insert key v m) ≡ some v
lookup_stored key v m = lookup-insert key key v m ∙ rw ((key_beq_iff key key).1 refl)

store-IsCounted :
    (c : RepairCache) (key : PacketKey) (bytes : List ℕ) (now : ℕ)
    → IsCounted c
    → IsCounted (store c key bytes now)
unfolding store
store-IsCounted c key bytes now h =
    let v : CacheEntry = record { bytes = bytes; sent_at = now } in
    let after : Map PacketKey CacheEntry = insert key v c.packets in
    let count : c.counters.bytes
          - weight entry_len (lookup key c.packets)
          + weight entry_len (lookup key after)
        ≡ total entry_len after =
      omega (
        arith,
        h.0,
        total-insert entry_len key v c.packets,
        total-remove entry_len key c.packets h.1,
        ap (weight entry_len) (lookup_stored key v c.packets),
      ) in
    (count, Distinct-insert key v c.packets h.1)

-- Inserting, fetching, evicting and clearing keep the byte counter at the total length of the stored
-- datagrams, each stored once: no subtraction of the counter saturates.
pub cache-IsCounted :
    (c : RepairCache) (key : PacketKey) (bytes : List ℕ) (now : ℕ)
    → IsCounted c
    → IsCounted (insert_packet c key bytes now)
      × IsCounted (get c key now).0
      × IsCounted (evict_expired c now)
      × IsCounted (clear c)
unfolding insert_packet get clear total
cache-IsCounted c key bytes now h =
    let evicted : IsCounted (evict_expired c now) = evict_expired-IsCounted c now h in
    (store-IsCounted (evict_expired c now) key bytes now evicted, evicted, evicted, (refl, tt))
