-- ===== src/Reassembly/Frames/Budget.antt =====
-- The budget of the in-flight frames: what is reserved is what the frames hold, within the limits.
use mathlib.Core.Path.{subst}
use agora_link.Prelude.{
  ℕ, ◌+◌, ◌-◌, ◌≡◌, ◌≤◌, ◌<◌, refl, sym, ap, min, length, arith, Bool-cases, Option-cases, inl, inr,
  none, some, [], ◌∷◌, Bool, true,
}
use agora_link.Map.{
  Map, lookup, insert, remove, total, weight, total-insert, total-remove, Distinct, Distinct-insert,
  Distinct-remove, nat_eq,
}
use agora_link.Reassembly.{
  H264Reassembler, FrameAssembly, new_assembly, max_inflight_packet_slots,
  max_inflight_payload_bytes, max_inflight_frames_limit,
}
use agora_link.Reassembly.Frames.Cases.{
  expire_absent, expire_found, ensure_present, ensure_invalid, ensure_reserved, ensure_refused,
}
use agora_link.Reassembly.Frames.{
  frame_payload_reservation, reject_new_frame_for_budget, release_frame, skip_frame,
  expire_inflight_frame, fits_budget, reserve_frame, ensure_inflight_frame,
}

abbrev frame_slots : FrameAssembly → ℕ
frame_slots f = f.packet_count

abbrev frame_bytes : FrameAssembly → ℕ
frame_bytes f = f.reserved_payload_bytes

abbrev one_each : FrameAssembly → ℕ
one_each f = 1

-- `limit` is the configured number of frames.
pub record Budget (limit : ℕ) (inflight : Map ℕ FrameAssembly) (slots bytes : ℕ) : Type 0 where
  pub distinct : Distinct inflight
  pub slots_eq : slots ≡ total frame_slots inflight
  pub bytes_eq : bytes ≡ total frame_bytes inflight
  pub slots_max : slots ≤ max_inflight_packet_slots
  pub bytes_max : bytes ≤ max_inflight_payload_bytes
  pub frames_max : length inflight ≤ min limit max_inflight_frames_limit

abbrev IsBudgeted : H264Reassembler → Type 0
IsBudgeted s =
    Budget s.config.max_inflight_frames s.inflight s.inflight_packet_slots s.inflight_payload_bytes

length-total : (m : Map ℕ FrameAssembly) → length m ≡ total one_each m
unfolding total
length-total [] = refl
length-total ((k, f) ∷ m) = omega (arith, length-total m)

-- An entry that is replaced by one that holds the same reservation.
pub Budget-update :
    (limit : ℕ) (m : Map ℕ FrameAssembly) (slots bytes k : ℕ) (old new : FrameAssembly)
    → lookup k m ≡ some old
    → new.packet_count ≡ old.packet_count
    → new.reserved_payload_bytes ≡ old.reserved_payload_bytes
    → Budget limit m slots bytes
    → Budget limit (insert k new m) slots bytes
Budget-update limit m slots bytes k old new found same_slots same_bytes b = record {
  distinct = Distinct-insert k new m b.distinct;
  slots_eq =
      omega (arith, b.slots_eq, total-insert frame_slots k new m, ap (weight frame_slots) found);
  bytes_eq =
      omega (arith, b.bytes_eq, total-insert frame_bytes k new m, ap (weight frame_bytes) found);
  slots_max = b.slots_max;
  bytes_max = b.bytes_max;
  frames_max = omega (
    arith,
    b.frames_max,
    total-insert one_each k new m,
    ap (weight one_each) found,
    length-total m,
    length-total (insert k new m),
  );
}

Budget-add :
    (limit : ℕ) (m : Map ℕ FrameAssembly) (slots bytes k : ℕ) (new : FrameAssembly)
    → lookup k m ≡ none
    → length m < min limit max_inflight_frames_limit
    → slots + new.packet_count ≤ max_inflight_packet_slots
    → bytes + new.reserved_payload_bytes ≤ max_inflight_payload_bytes
    → Budget limit m slots bytes
    → Budget limit (insert k new m) (slots + new.packet_count) (bytes + new.reserved_payload_bytes)
Budget-add limit m slots bytes k new absent room slots_fit bytes_fit b = record {
  distinct = Distinct-insert k new m b.distinct;
  slots_eq =
      omega (arith, b.slots_eq, total-insert frame_slots k new m, ap (weight frame_slots) absent);
  bytes_eq =
      omega (arith, b.bytes_eq, total-insert frame_bytes k new m, ap (weight frame_bytes) absent);
  slots_max = slots_fit;
  bytes_max = bytes_fit;
  frames_max = omega (
    arith,
    total-insert one_each k new m,
    ap (weight one_each) absent,
    length-total m,
    length-total (insert k new m),
  );
}

pub Budget-remove :
    (limit : ℕ) (m : Map ℕ FrameAssembly) (slots bytes k : ℕ) (old : FrameAssembly)
    → lookup k m ≡ some old
    → Budget limit m slots bytes
    → Budget limit (remove k m) (slots - old.packet_count) (bytes - old.reserved_payload_bytes)
Budget-remove limit m slots bytes k old found b = record {
  distinct = Distinct-remove k m b.distinct;
  slots_eq =
      omega
        (arith, b.slots_eq, total-remove frame_slots k m b.distinct, ap (weight frame_slots) found);
  bytes_eq =
      omega
        (arith, b.bytes_eq, total-remove frame_bytes k m b.distinct, ap (weight frame_bytes) found);
  slots_max = omega (arith, b.slots_max);
  bytes_max = omega (arith, b.bytes_max);
  frames_max = omega (
    arith,
    b.frames_max,
    total-remove one_each k m b.distinct,
    ap (weight one_each) found,
    length-total m,
    length-total (remove k m),
  );
}

reject-IsBudgeted :
    (s : H264Reassembler) (k n : ℕ) → IsBudgeted s → IsBudgeted (reject_new_frame_for_budget s k n)
unfolding reject_new_frame_for_budget
reject-IsBudgeted s k n b = b

released-IsBudgeted :
    (s : H264Reassembler) (k : ℕ) (f : FrameAssembly)
    → lookup k s.inflight ≡ some f
    → IsBudgeted s
    → IsBudgeted (skip_frame (release_frame s k f) k f)
unfolding release_frame skip_frame
released-IsBudgeted s k f p b =
    Budget-remove s.config.max_inflight_frames s.inflight s.inflight_packet_slots
      s.inflight_payload_bytes k f p b

expire_inflight_frame-IsBudgeted :
    (s : H264Reassembler) (k : ℕ) → IsBudgeted s → IsBudgeted (expire_inflight_frame s k)
expire_inflight_frame-IsBudgeted s k b = elim (Option-cases (lookup k s.inflight)) [
  | inl p ↦ subst IsBudgeted (sym (expire_absent s k p)) b
  | inr (f, p) ↦ subst IsBudgeted (sym (expire_found s k f p)) (released-IsBudgeted s k f p b)
]

pub reserved-IsBudgeted :
    (s : H264Reassembler) (k n r now t : ℕ) (fec : Bool)
    → lookup k s.inflight ≡ none
    → fits_budget s n r ≡ true
    → IsBudgeted s
    → IsBudgeted (reserve_frame s k n r now t fec)
unfolding fits_budget reserve_frame new_assembly
reserved-IsBudgeted s k n r now t fec absent fits b =
    Budget-add s.config.max_inflight_frames s.inflight s.inflight_packet_slots
      s.inflight_payload_bytes k (new_assembly n r now t fec) absent (ground (arith, fits))
      (ground (arith, fits)) (ground (arith, fits)) b

ensure_inflight_frame-IsBudgeted :
    (s : H264Reassembler) (k n now t : ℕ) (fec : Bool)
    → IsBudgeted s
    → IsBudgeted (ensure_inflight_frame s k n now t fec).0
ensure_inflight_frame-IsBudgeted s k n now t fec b = elim (Option-cases (lookup k s.inflight)) [
  | inr (f, p) ↦ rw (ensure_present s k n now t fec f p) b
  | inl p ↦ elim (Option-cases (frame_payload_reservation n)) [
    | inl q ↦ rw (ensure_invalid s k n now t fec p q) (reject-IsBudgeted s k n b)
    | inr (r, q) ↦ elim (Bool-cases (fits_budget s n r)) [
      | inl e ↦
          rw (ensure_reserved s k n now t fec r p q e) (reserved-IsBudgeted s k n r now t fec p e b)
      | inr e ↦ rw (ensure_refused s k n now t fec r p q e) (reject-IsBudgeted s k n b)
    ]
  ]
]
