-- ===== src/Repair/Suppression.antt =====
-- `RepairSuppression`: a packet is not repaired again within the interval.
pub mod Spacing
pub mod Memory
pub mod History
use agora_link.Prelude.{
  ℕ, ◌-◌, ◌*◌, ◌==◌, ltb, min, Bool, true, false, List, [], ◌∷◌, ◌++◌, Option, none, some,
  if◌then◌else◌, Result, ok, err,
}
use agora_link.Map.{Map, lookup, insert}
use agora_link.Wire.Nack.{PacketKey}
use agora_link.Repair.{bump, duration_max, key_eq}
use agora_link.Repair.Expiry.{Order, evict_loop}

pub record RepairSuppressionStats : Type 0 where
  pub requests : ℕ
  pub allowed : ℕ
  pub suppressed : ℕ
  pub evicted : ℕ

pub record RepairSuppression : Type 0 where
  pub interval : ℕ
  pub last_sent : Map PacketKey ℕ
  pub order : Order
  pub stats : RepairSuppressionStats

pub data RepairError : Type 0 where
  zero_interval zero_ttl : RepairError

abbrev pub no_stats : RepairSuppressionStats
no_stats = record { requests = 0; allowed = 0; suppressed = 0; evicted = 0 }

unfoldable pub new : ℕ → Result RepairError RepairSuppression
new interval =
    if interval == 0
    then err zero_interval
    else ok (record { interval = interval; last_sent = []; order = []; stats = no_stats })

abbrev pub sent_time : ℕ → ℕ
sent_time t = t

abbrev pub count_evicted : ℕ → RepairSuppressionStats → RepairSuppressionStats
count_evicted t stats = record stats { evicted = bump stats.evicted }

-- `interval.saturating_mul(4)`
abbrev pub retention : ℕ → ℕ
retention interval = min (interval * 4) duration_max

unfoldable pub evict : RepairSuppression → ℕ → RepairSuppression
evict s now =
    let (last_sent, order, stats) =
      evict_loop sent_time count_evicted (retention s.interval) now s.last_sent s.order s.stats in
    record s { last_sent = last_sent; order = order; stats = stats }

-- `is_some_and(|last| now.saturating_duration_since(*last) < interval)`
abbrev pub within : ℕ → ℕ → Option ℕ → Bool
within interval now none = false
within interval now (some last) = ltb (now - last) interval

-- `should_send` after the eviction.
unfoldable pub answer : RepairSuppression → PacketKey → ℕ → RepairSuppression × Bool
answer s key now =
    let stats = record s.stats { requests = bump s.stats.requests } in
    if within s.interval now (lookup key s.last_sent)
    then (record s { stats = record stats { suppressed = bump stats.suppressed } }, false)
    else (
      record s {
        last_sent = insert key now s.last_sent;
        order = s.order ++ (now, key) ∷ [];
        stats = record stats { allowed = bump stats.allowed };
      },
      true,
    )

unfoldable pub should_send : RepairSuppression → PacketKey → ℕ → RepairSuppression × Bool
unfolding evict answer
should_send s key now = answer (evict s now) key now

-- The replies to a row of requests.
unfoldable pub replies : RepairSuppression → List (PacketKey × ℕ) → List (PacketKey × Bool)
replies s [] = []
replies s ((key, now) ∷ calls) =
    let (s', sent) = should_send s key now in (key, sent) ∷ replies s' calls
