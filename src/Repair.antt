-- ===== src/Repair.antt =====
-- NACK repair of rust-native/agoralink_media/src/repair.rs: the sender's packet cache, the
-- suppression of repeated repairs and the receiver's count of unique packets. An `Instant` and a
-- `Duration` are numbers of nanoseconds.
pub mod Expiry
pub mod Suppression
pub mod Cache
pub mod Uniqueness
use agora_link.Prelude.{ℕ, ◌+◌, ◌-◌, ◌*◌, ◌^◌, ◌≡◌, ◌↔◌, min, Bool, ◌&&◌, ◌==◌, ==→eq, eq→==, arith}
use agora_link.Map.{Eq}
use agora_link.Wire.Nack.{PacketKey}

-- `u64::saturating_add(1)`, and a `Duration` as long as the type allows.
abbrev pub u64_max : ℕ
u64_max = 2 ^ 64 - 1

abbrev pub bump : ℕ → ℕ
bump n = min (n + 1) u64_max

abbrev pub duration_max : ℕ
duration_max = u64_max * 1000000000 + 999999999

abbrev pub key_beq : PacketKey → PacketKey → Bool
key_beq a b = a.frame_id == b.frame_id && a.packet_index == b.packet_index

pub key_beq_iff : (a b : PacketKey) → (key_beq a b ≡ Bool.true) ↔ (a ≡ b)
key_beq_iff a b = ground arith

instance abbrev pub key_eq : Eq PacketKey
key_eq = record { beq = key_beq; beq_iff = key_beq_iff }
