-- ===== src/Tests/Repairs.antt =====
-- Repairs of two packets, at concrete times.
use agora_link.Prelude.{
  ℕ, ap, ◌≢◌, ◌+◌, ◌-◌, ◌∷◌, [], List, Option, some, none, ◌≡◌, refl, ◌≤◌, ok, err, length, true,
  not, arith,
}
use agora_link.Map.{total, lookup, insert, remove}
use agora_link.Wire.Nack.{PacketKey}
use agora_link.Repair.{key_eq}
use agora_link.Repair.Expiry.{evict_loop, evict_entry}
use agora_link.Repair.Suppression.{
  RepairSuppression, no_stats, new, evict, answer, should_send, replies, zero_interval,
}
use agora_link.Repair.Suppression.Spacing.{should_send-spaced, Refused}
use agora_link.Repair.Suppression.History.{request_all, repaired_within, should_send_iff}
use agora_link.Repair.Suppression.Memory.{should_send-IsTidy, IsTidy, Fresh}
use agora_link.Repair.Cache.{
  CacheEntry, RepairCache, evict_expired, store, insert_packet, get, clear,
}
use agora_link.Repair.Cache.Accounting.{cache-IsCounted, IsCounted}
use agora_link.Repair.Cache.Retrieval.{
  CacheCall, inserts, gets, evicts, call_cache_all, get-insert_packet, get_young,
  insert_packet-IsTidy, IsTidy as CacheIsTidy,
}
use agora_link.Repair.Uniqueness.{observe_all, fresh_tracker, distinct_count, observe_all-counts}

abbrev first_key : PacketKey
first_key = record { frame_id = 3; packet_index = 1 }

abbrev second_key : PacketKey
second_key = record { frame_id = 3; packet_index = 2 }

none-ne-some : {A B : Type 0} {a : A} → ◌≡◌ {A = Option A} none (some a) → B
none-ne-some h = absurd cc

abbrev ten_apart : RepairSuppression
ten_apart = record { interval = 10; last_sent = []; order = []; stats = no_stats }

ten_apart-new : new 10 ≡ ok ten_apart
unfolding new
ten_apart-new = refl

no_interval : new 0 ≡ err zero_interval
unfolding new
no_interval = refl

first_sent : (should_send ten_apart first_key 100).1 ≡ true
unfolding should_send evict evict_loop answer lookup
first_sent = refl

-- Two requests for one packet and one for another; the second is refused.
abbrev three_requests : List (PacketKey × ℕ)
three_requests = (first_key, 100) ∷ (first_key, 105) ∷ (second_key, 107) ∷ []

two_sent : (request_all ten_apart [] three_requests).1 ≡ (second_key, 107) ∷ (first_key, 100) ∷ []
unfolding should_send evict evict_loop evict_entry answer lookup insert
two_sent = refl

should_send_iff_example :
    (should_send (request_all ten_apart [] three_requests).0 first_key 111).1
    ≡ not (repaired_within 10 first_key 111 (request_all ten_apart [] three_requests).1)
should_send_iff_example =
    should_send_iff 10 ten_apart three_requests first_key 111 ten_apart-new (omega arith)
      (omega arith, (omega arith, (omega arith, (omega arith, tt))))

should_send-spaced_example : Refused first_key (
    replies
      (should_send ten_apart first_key 100).0
      ((second_key, 103) ∷ (first_key, 105) ∷ (first_key, 109) ∷ []))
should_send-spaced_example =
    should_send-spaced ten_apart first_key 100
      ((second_key, 103) ∷ (first_key, 105) ∷ (first_key, 109) ∷ []) (omega arith) first_sent
      (omega arith)

ten_apart-IsTidy : IsTidy ten_apart 0
unfolding lookup
ten_apart-IsTidy = record {
  tracked = λ k v h. none-ne-some h;
  sorted = tt;
  distinct = tt;
  past = tt;
}

abbrev once_sent : RepairSuppression
once_sent = (should_send ten_apart first_key 100).0

once_sent-IsTidy : IsTidy once_sent 100
once_sent-IsTidy = (should_send-IsTidy ten_apart first_key 0 100 ten_apart-IsTidy (omega arith)).0

requests-IsTidy :
    IsTidy (should_send once_sent second_key 145).0 145
    × Fresh (should_send once_sent second_key 145).0 145
requests-IsTidy = should_send-IsTidy once_sent second_key 100 145 once_sent-IsTidy (omega arith)

abbrev empty_cache : RepairCache
empty_cache = record {
  ttl = 50;
  packets = [];
  order = [];
  counters = record { bytes = 0; evictions = 0 };
}

empty_cache-IsTidy : CacheIsTidy empty_cache 0
unfolding lookup
empty_cache-IsTidy = record {
  tracked = λ k v h. none-ne-some h;
  sorted = tt;
  distinct = tt;
  past = tt;
}

empty_cache-IsCounted : IsCounted empty_cache
unfolding total
empty_cache-IsCounted = (refl, tt)

abbrev one_cached : RepairCache
one_cached = insert_packet empty_cache first_key (1 ∷ 2 ∷ []) 100

one_cached-IsTidy : CacheIsTidy one_cached 100
one_cached-IsTidy =
    insert_packet-IsTidy empty_cache first_key (1 ∷ 2 ∷ []) 0 100 (omega arith) empty_cache-IsTidy

cache-IsCounted_example :
    IsCounted (insert_packet one_cached second_key (9 ∷ []) 120)
    × IsCounted (get one_cached second_key 120).0
    × IsCounted (evict_expired one_cached 120)
    × IsCounted (clear one_cached)
cache-IsCounted_example =
    cache-IsCounted one_cached second_key (9 ∷ []) 120
      ((cache-IsCounted empty_cache first_key (1 ∷ 2 ∷ []) 100 empty_cache-IsCounted).0)

second_kept : CacheIsTidy (insert_packet one_cached second_key (9 ∷ []) 160) 160
second_kept =
    insert_packet-IsTidy one_cached second_key (9 ∷ []) 100 160 (omega arith) one_cached-IsTidy

first_apart : first_key ≢ second_key
first_apart h =
    let index : 1 ≡ 2 = ap (λ (k : PacketKey). k.packet_index) h in absurd (omega (arith, index))

-- What happens before the datagram is looked for.
abbrev meanwhile : List CacheCall
meanwhile = inserts first_key (4 ∷ []) 140 ∷ gets second_key 150 ∷ evicts 160 ∷ []

get-insert_packet_example :
    (get
      (call_cache_all (insert_packet one_cached second_key (9 ∷ []) 120) meanwhile)
      second_key
      170).1
    ≡ some (9 ∷ [])
unfolding insert_packet store evict_expired
get-insert_packet_example =
    get-insert_packet one_cached second_key (9 ∷ []) 120 170 meanwhile
      ((first_apart, omega arith), (omega arith, (omega arith, tt))) (omega arith)

still_there : (get one_cached first_key 150).1 ≡ some (1 ∷ 2 ∷ [])
still_there = get-insert_packet empty_cache first_key (1 ∷ 2 ∷ []) 100 150 [] tt (omega arith)

get_young_example :
    (e : CacheEntry) × (lookup first_key one_cached.packets ≡ some e)
    × (e.bytes ≡ 1 ∷ 2 ∷ [])
    × (150 - e.sent_at ≤ one_cached.ttl)
get_young_example =
    get_young one_cached first_key (1 ∷ 2 ∷ []) 100 150 one_cached-IsTidy (omega arith) still_there

-- Past its time to live, a datagram is gone.
expired_packet : (get one_cached first_key 151).1 ≡ none
unfolding get evict_expired evict_loop evict_entry store insert_packet lookup insert remove
expired_packet = refl

abbrev three_arrivals : List PacketKey
three_arrivals = first_key ∷ second_key ∷ first_key ∷ []

observe_all-counts_example :
    ((observe_all fresh_tracker three_arrivals).unique ≡ distinct_count [] three_arrivals)
    × ((observe_all fresh_tracker three_arrivals).unique
          + (observe_all fresh_tracker three_arrivals).duplicate
        ≡ length three_arrivals)
observe_all-counts_example = observe_all-counts three_arrivals (omega arith)
