-- ===== src/Reassembly/Soundness.antt =====
-- The invariant of the reassembler, and the operations on its frames that keep it.
pub mod Attempts
pub mod Packets
pub mod Stream
pub mod Gate
pub mod Datagram
use mathlib.Core.Path.{subst}
use agora_link.Prelude.{
  ℕ, ◌+◌, ◌-◌, ◌*◌, ◌^◌, ◌≡◌, ◌≤◌, ◌<◌, refl, sym, ap, ◌∙◌, min, Bool, true, false, not, ◌&&◌, ◌||◌,
  ltb, ◌==◌, List, [], ◌∷◌, Option, none, some, All, length, if◌then◌else◌, arith, Bool-cases,
  Option-cases, inl, inr, ltb_false→le, ==→eq,
}
use agora_link.Map.{Map, lookup, insert, remove, nat_eq}
use agora_link.Wire.Media.{max_video_packet_count}
use agora_link.Repair.{u64_max}
use agora_link.Reassembly.{H264Reassembler, FrameAssembly, EncodedFrame, FloatTiming, new_assembly}
use agora_link.Reassembly.Frames.{
  frame_payload_reservation, reject_new_frame_for_budget, release_frame, remove_inflight_frame,
  skip_frame, expire_inflight_frame, set_insert, fits_budget, reserve_frame, ensure_inflight_frame,
}
use agora_link.Reassembly.Frames.Cases.{
  expire_absent, expire_found, remove_absent, remove_found, ensure_present, ensure_invalid,
  ensure_reserved, ensure_refused,
}
use agora_link.Reassembly.Frames.Budget.{Budget, Budget-update, Budget-remove, reserved-IsBudgeted}
use agora_link.Reassembly.Completion.{
  put_frame, encoded_frame, observe_frame_timing, sample_timing, store_complete, complete_removed,
  finish_complete_frame,
}
use agora_link.Reassembly.Release.{value_or}
use agora_link.Reassembly.Release.Order.{GateAt}
use agora_link.Reassembly.Release.Waiting.{Waiting}
use agora_link.Reassembly.Release.Seen.{
  KeysTo, KeysTo-remove, KeysTo-lookup, To, To-set_insert, SeenTo,
}
use agora_link.Reassembly.Slots.{IsSlotted, new_assembly-IsSlotted}

pub All-insert :
    {V : Type 0} (P : ℕ × V → Type 0) (k : ℕ) (v : V) (m : Map ℕ V)
    → P (k, v)
    → All P m
    → All P (insert k v m)
unfolding insert
All-insert P k v [] p a = (p, tt)
All-insert P k v ((j, w) ∷ m) p a = elim (Bool-cases (j == k)) [
  | inl q ↦ rw q (p, a.1)
  | inr q ↦ rw q (a.0, All-insert P k v m p a.1)
]

All-remove : {V : Type 0} (P : ℕ × V → Type 0) (k : ℕ) (m : Map ℕ V) → All P m → All P (remove k m)
unfolding remove
All-remove P k [] a = tt
All-remove P k ((j, w) ∷ m) a = elim (Bool-cases (j == k)) [
  | inl q ↦ rw q (All-remove P k m a.1)
  | inr q ↦ rw q (a.0, All-remove P k m a.1)
]

pub All-lookup :
    {V : Type 0} (P : V → Type 0) (k : ℕ) (m : Map ℕ V) (v : V)
    → lookup k m ≡ some v
    → All (λ e. P e.1) m
    → P v
unfolding lookup
All-lookup P k [] v e a = absurd cc
All-lookup P k ((j, w) ∷ m) v e a = elim (Bool-cases (j == k)) [
  | inl q ↦ let same : some w ≡ some v = rw q at e in let p : w ≡ v = cc in subst P p a.0
  | inr q ↦ All-lookup P k m v (rw q at e) a.1
]

abbrev Slotted : Map ℕ FrameAssembly → Type 0
Slotted = All (λ e. IsSlotted e.1)

-- Of the parts of the state: the budget is kept, each frame's counts are those of its slots, no frame
-- is past the highest id that was seen, and no waiting frame is before the gate.
pub record Parts (h limit : ℕ) (inflight : Map ℕ FrameAssembly) (slots bytes : ℕ)
    (complete : Map ℕ EncodedFrame) (skipped : List ℕ) (next highest : Option ℕ) : Type 0 where
  pub real : h ≤ u64_max
  pub budget : Budget limit inflight slots bytes
  pub slotted : Slotted inflight
  pub in_flight : KeysTo h inflight
  pub waiting : KeysTo h complete
  pub skips : All (To h) skipped
  pub gate : GateAt 0 next complete
  pub highest_eq : value_or highest 0 ≡ h

abbrev pub SoundTo : ℕ → H264Reassembler → Type 0
SoundTo h s =
    Parts h s.config.max_inflight_frames s.inflight s.inflight_packet_slots s.inflight_payload_bytes
      s.complete s.skipped s.next_frame s.highest_seen_frame

module _ (h : ℕ) (s : H264Reassembler) (k : ℕ) (b : SoundTo h s) where
  pub put_frame-SoundTo :
      (old new : FrameAssembly)
      → lookup k s.inflight ≡ some old
      → new.packet_count ≡ old.packet_count
      → new.reserved_payload_bytes ≡ old.reserved_payload_bytes
      → IsSlotted new
      → SoundTo h (put_frame s k new)
  unfolding put_frame
  put_frame-SoundTo old new p e d slotted = record {
    real = b.real;
    budget =
        Budget-update s.config.max_inflight_frames s.inflight s.inflight_packet_slots
          s.inflight_payload_bytes k old new p e d b.budget;
    slotted = All-insert (λ e. IsSlotted e.1) k new s.inflight slotted b.slotted;
    in_flight =
        All-insert (λ e. e.0 ≤ h) k new s.inflight (KeysTo-lookup h k s.inflight old p b.in_flight)
          b.in_flight;
    waiting = b.waiting;
    skips = b.skips;
    gate = b.gate;
    highest_eq = b.highest_eq;
  }

  pub release_frame-SoundTo :
      (f : FrameAssembly) → lookup k s.inflight ≡ some f → SoundTo h (release_frame s k f)
  unfolding release_frame
  release_frame-SoundTo f p = record {
    real = b.real;
    budget =
        Budget-remove s.config.max_inflight_frames s.inflight s.inflight_packet_slots
          s.inflight_payload_bytes k f p b.budget;
    slotted = All-remove (λ e. IsSlotted e.1) k s.inflight b.slotted;
    in_flight = KeysTo-remove h k s.inflight b.in_flight;
    waiting = b.waiting;
    skips = b.skips;
    gate = b.gate;
    highest_eq = b.highest_eq;
  }

skip_frame-SoundTo :
    (h : ℕ) (s : H264Reassembler) (k : ℕ) (f : FrameAssembly)
    → k ≤ h
    → SoundTo h s
    → SoundTo h (skip_frame s k f)
unfolding skip_frame
skip_frame-SoundTo h s k f le b = record {
  real = b.real;
  budget = b.budget;
  slotted = b.slotted;
  in_flight = b.in_flight;
  waiting = b.waiting;
  skips = To-set_insert h k s.skipped le b.skips;
  gate = b.gate;
  highest_eq = b.highest_eq;
}

pub expire_inflight_frame-SoundTo :
    (h : ℕ) (s : H264Reassembler) (k : ℕ) → SoundTo h s → SoundTo h (expire_inflight_frame s k)
expire_inflight_frame-SoundTo h s k b = elim (Option-cases (lookup k s.inflight)) [
  | inl p ↦ subst (SoundTo h) (sym (expire_absent s k p)) b
  | inr (f, p) ↦ subst (SoundTo h) (sym (expire_found s k f p)) (
      skip_frame-SoundTo h (release_frame s k f) k f (KeysTo-lookup h k s.inflight f p b.in_flight)
        (release_frame-SoundTo h s k b f p))
]

reject-SoundTo :
    (h : ℕ) (s : H264Reassembler) (k n : ℕ)
    → k ≤ h
    → SoundTo h s
    → SoundTo h (reject_new_frame_for_budget s k n)
unfolding reject_new_frame_for_budget
reject-SoundTo h s k n le b = record {
  real = b.real;
  budget = b.budget;
  slotted = b.slotted;
  in_flight = b.in_flight;
  waiting = b.waiting;
  skips = To-set_insert h k s.skipped le b.skips;
  gate = b.gate;
  highest_eq = b.highest_eq;
}

-- Only a packet count within the limit has a reservation.
reservation-le : (n r : ℕ) → frame_payload_reservation n ≡ some r → n ≤ max_video_packet_count
unfolding frame_payload_reservation
reservation-le n r e = elim (Bool-cases (ltb max_video_packet_count n)) [
  | inr p ↦ ltb_false→le max_video_packet_count n p
  | inl p ↦ elim (Bool-cases (n == 0)) [
    | inl q ↦ omega (arith, ==→eq n 0 q)
    | inr q ↦ absurd (none-ne-some (rw (q, p) at e))
  ]
]
  where
    none-ne-some : ◌≡◌ {A = Option ℕ} none (some r) → ⊥
    none-ne-some x = cc

module _ (h : ℕ) (s : H264Reassembler) (k n now t : ℕ) (fec : Bool) (le : k ≤ h)
    (b : SoundTo h s) where
  reserve_frame-SoundTo :
      (r : ℕ)
      → lookup k s.inflight ≡ none
      → frame_payload_reservation n ≡ some r
      → fits_budget s n r ≡ true
      → SoundTo h (reserve_frame s k n r now t fec)
  unfolding reserve_frame
  reserve_frame-SoundTo r p q e = record {
    real = b.real;
    budget = reserved-IsBudgeted s k n r now t fec p e b.budget;
    slotted =
        All-insert (λ e. IsSlotted e.1) k (new_assembly n r now t fec) s.inflight
          (new_assembly-IsSlotted n r now t fec (omega (arith, reservation-le n r q))) b.slotted;
    in_flight = All-insert (λ e. e.0 ≤ h) k (new_assembly n r now t fec) s.inflight le b.in_flight;
    waiting = b.waiting;
    skips = b.skips;
    gate = b.gate;
    highest_eq = b.highest_eq;
  }

  pub ensure_inflight_frame-SoundTo : SoundTo h (ensure_inflight_frame s k n now t fec).0
  ensure_inflight_frame-SoundTo = elim (Option-cases (lookup k s.inflight)) [
    | inr (f, p) ↦ rw (ensure_present s k n now t fec f p) b
    | inl p ↦ elim (Option-cases (frame_payload_reservation n)) [
      | inl q ↦ rw (ensure_invalid s k n now t fec p q) (reject-SoundTo h s k n le b)
      | inr (r, q) ↦ elim (Bool-cases (fits_budget s n r)) [
        | inl e ↦ rw (ensure_reserved s k n now t fec r p q e) (reserve_frame-SoundTo r p q e)
        | inr e ↦ rw (ensure_refused s k n now t fec r p q e) (reject-SoundTo h s k n le b)
      ]
    ]
  ]

-- The gate is set, and frame `k` is not before it.
abbrev pub NotBefore : ℕ → Option ℕ → Type 0
NotBefore k none = ⊥
NotBefore k (some n) = n ≤ k

pub GateAt-insert :
    (k : ℕ) (next : Option ℕ) (m : Map ℕ EncodedFrame) (f : EncodedFrame)
    → f.frame_id ≡ k
    → k ≤ u64_max
    → NotBefore k next
    → GateAt 0 next m
    → GateAt 0 next (insert k f m)
GateAt-insert k none m f e le after g = absurd after
GateAt-insert k (some n) m f e le after (lo, small, w) =
    (lo, small, All-insert _ k f m (after, le, e) w)

module _ (float : FloatTiming) (h : ℕ) (s : H264Reassembler) (k : ℕ) where
  sample_timing-SoundTo :
      (o : Option (ℕ × ℕ)) (t : ℕ) → SoundTo h s → SoundTo h (sample_timing float s o k t)
  sample_timing-SoundTo none t b = b
  sample_timing-SoundTo (some (j, u)) t b = elim (Bool-cases (ltb j k && ltb u t)) [
    | inl p ↦ rw p b
    | inr p ↦ rw p b
  ]

  pub observe_frame_timing-SoundTo :
      (t : ℕ) → SoundTo h s → SoundTo h (observe_frame_timing float s k t)
  unfolding observe_frame_timing
  observe_frame_timing-SoundTo t b = sample_timing-SoundTo s.last_timing_frame t b
