-- ===== src/Reassembly/Soundness/Attempts.antt =====
-- The completion of a frame, and the attempt to recover its last packet, keep the invariant.
use mathlib.Core.Path.{subst}
use agora_link.Prelude.{
  ℕ, ◌≡◌, ◌≤◌, refl, sym, ◌==◌, Option, none, some, List, arith, Bool-cases, Option-cases, inl, inr,
  ==→eq, Result, ok, err,
}
use agora_link.Map.{lookup, nat_eq}
use agora_link.Wire.Fec.{FecParity, FecError}
use agora_link.Fec.{recover_missing_payload}
use agora_link.Reassembly.{H264Reassembler, FrameAssembly, FloatTiming}
use agora_link.Reassembly.Frames.{release_frame}
use agora_link.Reassembly.Frames.Cases.{remove_absent, remove_found}
use agora_link.Reassembly.Completion.{
  position_none, put_recovered, give_up_parity, put_frame, encoded_frame, store_complete,
  complete_removed, finish_complete_frame, Attempt, not_tried, nothing_missing, recovered, failed,
  attempt_result, attempt_with, attempt_parity, attempt_recovery, attempt_of, apply_attempt,
  is_complete, complete_if_full, try_complete_frame,
}
use agora_link.Reassembly.Release.Seen.{KeysTo-lookup}
use agora_link.Reassembly.Slots.{
  IsSlotted, Replaces, put_recovered-IsSlotted, give_up_parity-IsSlotted,
}
use agora_link.Reassembly.Soundness.{
  SoundTo, All-insert, All-lookup, put_frame-SoundTo, release_frame-SoundTo, NotBefore,
  GateAt-insert, observe_frame_timing-SoundTo,
}

abbrev Attempted : FrameAssembly → Attempt → Type 0
Attempted f not_tried = Unit
Attempted f nothing_missing = Unit
Attempted f (recovered g) = Replaces f g
Attempted f (failed g) = Replaces f g

module _ (f : FrameAssembly) (slots : IsSlotted f) where
  attempt_result-Attempted :
      (one : f.missing_count ≡ 1) (i : ℕ)
      → position_none f.packets 0 ≡ some i
      → (r : Result FecError (List ℕ)) → Attempted f (attempt_result f i r)
  unfolding put_recovered give_up_parity
  attempt_result-Attempted one i at (ok payload) = record {
    same_count = refl;
    same_bytes = refl;
    slotted = put_recovered-IsSlotted f i payload one at slots;
  }
  attempt_result-Attempted one i at (err e) = record {
    same_count = refl;
    same_bytes = refl;
    slotted = give_up_parity-IsSlotted f slots;
  }

  attempt_with-Attempted :
      (one : f.missing_count ≡ 1) (parity : FecParity) (o : Option ℕ)
      → position_none f.packets 0 ≡ o
      → Attempted f (attempt_with f parity o)
  attempt_with-Attempted one parity none at = tt
  attempt_with-Attempted one parity (some i) at =
      attempt_result-Attempted one i at (recover_missing_payload f.packets parity i)

  attempt_parity-Attempted :
      (one : f.missing_count ≡ 1) (o : Option FecParity) → Attempted f (attempt_parity f o)
  attempt_parity-Attempted one none = tt
  attempt_parity-Attempted one (some parity) =
      attempt_with-Attempted one parity (position_none f.packets 0) refl

  attempt_recovery-Attempted : Attempted f (attempt_recovery f)
  unfolding attempt_recovery
  attempt_recovery-Attempted = elim (Bool-cases (f.missing_count == 1)) [
    | inl p ↦
        rw (attempt_recovery, p) (attempt_parity-Attempted (==→eq f.missing_count 1 p) f.fec_parity)
    | inr p ↦ rw (attempt_recovery, p) tt
  ]

module _ (h : ℕ) (s : H264Reassembler) (k : ℕ) (b : SoundTo h s) where
  apply_attempt-SoundTo :
      (f : FrameAssembly)
      → lookup k s.inflight ≡ some f
      → (t : Attempt) → Attempted f t
      → SoundTo h (apply_attempt s k t)
  unfolding apply_attempt put_frame
  apply_attempt-SoundTo f p not_tried a = b
  apply_attempt-SoundTo f p nothing_missing a = b
  apply_attempt-SoundTo f p (recovered g) a =
      put_frame-SoundTo h s k b f g p a.same_count a.same_bytes a.slotted
  apply_attempt-SoundTo f p (failed g) a =
      put_frame-SoundTo h s k b f g p a.same_count a.same_bytes a.slotted

  attempt_of-SoundTo :
      (o : Option FrameAssembly)
      → lookup k s.inflight ≡ o
      → (float : FloatTiming) → SoundTo h (apply_attempt s k (attempt_of float o))
  unfolding apply_attempt
  attempt_of-SoundTo none p float = b
  attempt_of-SoundTo (some f) p float =
      apply_attempt-SoundTo f p (attempt_recovery f)
        (attempt_recovery-Attempted f (All-lookup IsSlotted k s.inflight f p b.slotted))

next-apply_attempt :
    (s : H264Reassembler) (k : ℕ) (t : Attempt) → (apply_attempt s k t).next_frame ≡ s.next_frame
unfolding apply_attempt put_frame
next-apply_attempt s k not_tried = refl
next-apply_attempt s k nothing_missing = refl
next-apply_attempt s k (recovered g) = refl
next-apply_attempt s k (failed g) = refl

module _ (float : FloatTiming) (h : ℕ) (s : H264Reassembler) (k : ℕ)
    (after : NotBefore k s.next_frame) (b : SoundTo h s) where
  store_complete-SoundTo : k ≤ h → (f : FrameAssembly) → SoundTo h (store_complete float s k f)
  unfolding store_complete
  store_complete-SoundTo le f = observe_frame_timing-SoundTo float h _ k f.timestamp_ms (record {
    real = b.real;
    budget = b.budget;
    slotted = b.slotted;
    in_flight = b.in_flight;
    waiting = All-insert (λ e. e.0 ≤ h) k (encoded_frame k f) s.complete le b.waiting;
    skips = b.skips;
    gate =
        GateAt-insert k s.next_frame s.complete (encoded_frame k f) refl (omega (arith, le, b.real))
          after b.gate;
    highest_eq = b.highest_eq;
  })

module _ (float : FloatTiming) (h : ℕ) (s : H264Reassembler) (k : ℕ)
    (after : NotBefore k s.next_frame) (b : SoundTo h s) where
  released-SoundTo :
      (f : FrameAssembly)
      → lookup k s.inflight ≡ some f
      → SoundTo h (store_complete float (release_frame s k f) k f)
  unfolding release_frame
  released-SoundTo f p =
      store_complete-SoundTo float h (release_frame s k f) k after
        (release_frame-SoundTo h s k b f p) (KeysTo-lookup h k s.inflight f p b.in_flight) f

  finish_complete_frame-SoundTo : SoundTo h (finish_complete_frame float s k)
  unfolding finish_complete_frame complete_removed
  finish_complete_frame-SoundTo = elim (Option-cases (lookup k s.inflight)) [
    | inl p ↦ subst (λ r. SoundTo h (complete_removed float k r)) (sym (remove_absent s k p)) b
    | inr (f, p) ↦
        subst (λ r. SoundTo h (complete_removed float k r)) (sym (remove_found s k f p))
          (released-SoundTo f p)
  ]

  complete_if_full-SoundTo : SoundTo h (complete_if_full float s k)
  unfolding complete_if_full
  complete_if_full-SoundTo = elim (Bool-cases (is_complete float (lookup k s.inflight))) [
    | inl p ↦ rw (complete_if_full, p) finish_complete_frame-SoundTo
    | inr p ↦ rw (complete_if_full, p) b
  ]

module _ (float : FloatTiming) (h : ℕ) (s : H264Reassembler) (k : ℕ)
    (after : NotBefore k s.next_frame) (b : SoundTo h s) where
  pub try_complete_frame-SoundTo : SoundTo h (try_complete_frame float s k)
  unfolding try_complete_frame
  try_complete_frame-SoundTo =
      complete_if_full-SoundTo float h (apply_attempt s k (attempt_of float (lookup k s.inflight)))
        k
        (subst (NotBefore k) (sym (next-apply_attempt s k (attempt_of float (lookup k s.inflight))))
          after)
        (attempt_of-SoundTo h s k b (lookup k s.inflight) refl float)
