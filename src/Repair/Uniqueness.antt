-- ===== src/Repair/Uniqueness.antt =====
-- `PacketUniquenessTracker`: how many packets arrived for the first time, and how many again.
use agora_link.Prelude.{
  ℕ, suc, ◌+◌, ◌%◌, ◌^◌, ◌<◌, ◌≡◌, refl, Bool, true, false, List, [], ◌∷◌, if◌then◌else◌, length,
  arith, Bool-cases, inl, inr,
}
use agora_link.Wire.Nack.{PacketKey}
use agora_link.Repair.{key_beq}

-- `HashSet::contains`.
unfoldable pub contains : PacketKey → List PacketKey → Bool
contains k [] = false
contains k (j ∷ seen) = if key_beq j k then true else contains k seen

pub record PacketUniquenessTracker : Type 0 where
  pub seen : List PacketKey
  pub unique : ℕ
  pub duplicate : ℕ

abbrev pub fresh_tracker : PacketUniquenessTracker
fresh_tracker = record { seen = []; unique = 0; duplicate = 0 }

unfoldable pub observe : PacketUniquenessTracker → PacketKey → PacketUniquenessTracker × Bool
unfolding contains
observe t key =
    if contains key t.seen
    then (record t { duplicate = (t.duplicate + 1) % 2 ^ 64 }, false)
    else (record t { seen = key ∷ t.seen; unique = (t.unique + 1) % 2 ^ 64 }, true)

unfoldable pub observe_all : PacketUniquenessTracker → List PacketKey → PacketUniquenessTracker
unfolding observe
observe_all t [] = t
observe_all t (key ∷ keys) = observe_all (observe t key).0 keys

-- How many packets of a list are neither in `seen` nor earlier in the list.
abbrev pub distinct_count : List PacketKey → List PacketKey → ℕ
distinct_count seen [] = 0
distinct_count seen (k ∷ keys) =
    let more = distinct_count (k ∷ seen) keys in
    let same = distinct_count seen keys in if contains k seen then same else suc more

observe_all_seen :
    (k : PacketKey) (keys : List PacketKey) (t : PacketUniquenessTracker)
    → contains k t.seen ≡ true
    → observe_all t (k ∷ keys)
      ≡ observe_all (record t { duplicate = (t.duplicate + 1) % 2 ^ 64 }) keys
unfolding observe observe_all
observe_all_seen k keys t p = rw p refl

observe_all_new :
    (k : PacketKey) (keys : List PacketKey) (t : PacketUniquenessTracker)
    → contains k t.seen ≡ false
    → observe_all t (k ∷ keys)
      ≡ observe_all (record t { seen = k ∷ t.seen; unique = (t.unique + 1) % 2 ^ 64 }) keys
unfolding observe observe_all
observe_all_new k keys t p = rw p refl

counted :
    (keys : List PacketKey) (t : PacketUniquenessTracker)
    → t.unique + t.duplicate + length keys < 2 ^ 64
    → ((observe_all t keys).unique ≡ t.unique + distinct_count t.seen keys)
      × ((observe_all t keys).unique + (observe_all t keys).duplicate
          ≡ t.unique + t.duplicate + length keys)
unfolding observe_all
counted [] t h = omega arith
counted (k ∷ keys) t h = elim (Bool-cases (contains k t.seen)) [
  | inl p ↦
      rw (observe_all_seen k keys t p, p)
        (omega
          (arith, counted keys (record t { duplicate = (t.duplicate + 1) % 2 ^ 64 }) (omega arith)))
  | inr p ↦
      rw (observe_all_new k keys t p, p)
        (omega (
          arith,
          counted keys (record t { seen = k ∷ t.seen; unique = (t.unique + 1) % 2 ^ 64 })
              (omega arith),
        ))
]

-- Over fewer than 2^64 packets, a new tracker counts as unique the packets that differ, and as
-- duplicates all the others.
pub observe_all-counts :
    (keys : List PacketKey)
    → length keys < 2 ^ 64
    → ((observe_all fresh_tracker keys).unique ≡ distinct_count [] keys)
      × ((observe_all fresh_tracker keys).unique + (observe_all fresh_tracker keys).duplicate
          ≡ length keys)
observe_all-counts keys h = omega (arith, counted keys fresh_tracker (omega arith))
