-- ===== src/Repair/Cache.antt =====
-- `RepairCache`: the datagrams that the sender can repeat.
pub mod Accounting
pub mod Retrieval
use agora_link.Prelude.{
  ℕ, ◌+◌, ◌-◌, ◌%◌, ◌^◌, ◌==◌, List, [], ◌∷◌, ◌++◌, Option, none, some, if◌then◌else◌, Result, ok,
  err, length,
}
use mathlib.Core.Option
use agora_link.Map.{Map, lookup, insert, weight}
use agora_link.Wire.Nack.{PacketKey}
use agora_link.Repair.{key_eq}
use agora_link.Repair.Expiry.{Order, evict_loop}
use agora_link.Repair.Suppression.{RepairError, zero_ttl}

pub record CacheEntry : Type 0 where
  pub bytes : List ℕ
  pub sent_at : ℕ

-- What the eviction loop updates beside the map and the order.
pub record Counters : Type 0 where
  pub bytes : ℕ
  pub evictions : ℕ

pub record RepairCache : Type 0 where
  pub ttl : ℕ
  pub packets : Map PacketKey CacheEntry
  pub order : Order
  pub counters : Counters

unfoldable pub new : ℕ → Result RepairError RepairCache
new ttl =
    if ttl == 0
    then err zero_ttl
    else ok (record {
      ttl = ttl;
      packets = [];
      order = [];
      counters = record { bytes = 0; evictions = 0 };
    })

abbrev pub entry_len : CacheEntry → ℕ
entry_len e = length e.bytes

abbrev pub entry_time : CacheEntry → ℕ
entry_time e = e.sent_at

-- `usize::saturating_sub`, and `+= 1` on a u64.
abbrev pub drop_entry : CacheEntry → Counters → Counters
drop_entry e c = record c { bytes = c.bytes - entry_len e; evictions = (c.evictions + 1) % 2 ^ 64 }

unfoldable pub evict_expired : RepairCache → ℕ → RepairCache
evict_expired c now =
    let (packets, order, counters) =
      evict_loop entry_time drop_entry c.ttl now c.packets c.order c.counters in
    record c { packets = packets; order = order; counters = counters }

-- `insert` after the eviction: the replaced entry's bytes are taken off, the new one's added.
unfoldable pub store : RepairCache → PacketKey → List ℕ → ℕ → RepairCache
store c key bytes now =
    let packets = insert key (record { bytes = bytes; sent_at = now }) c.packets in
    let kept = c.counters.bytes - weight entry_len (lookup key c.packets) in
    record c {
      packets = packets;
      order = c.order ++ (now, key) ∷ [];
      counters = record c.counters { bytes = kept + weight entry_len (lookup key packets) };
    }

unfoldable pub insert_packet : RepairCache → PacketKey → List ℕ → ℕ → RepairCache
insert_packet c key bytes now = store (evict_expired c now) key bytes now

unfoldable pub get : RepairCache → PacketKey → ℕ → RepairCache × Option (List ℕ)
get c key now =
    let c' = evict_expired c now in (c', Option.map (λ e. e.bytes) (lookup key c'.packets))

unfoldable pub clear : RepairCache → RepairCache
clear c = record c { packets = []; order = []; counters = record c.counters { bytes = 0 } }
