-- ===== src/Reassembly/Soundness/Gate.antt =====
-- Releasing frames keeps the invariant of the reassembler: `take_ready`, `expire` and
-- `accept_datagram`.
use mathlib.Core.Path.{subst}
use agora_link.Prelude.{
  ℕ, zero, suc, ◌+◌, ◌-◌, ◌≡◌, ◌≢◌, ◌≤◌, sym, ap, Bool, false, not, ◌&&◌, ltb, List, [], ◌∷◌,
  Option, none, some, arith, Bool-cases, Option-cases, inl, inr,
}
use agora_link.Map.{Map, lookup, remove, nat_eq}
use agora_link.Repair.{u64_max}
use agora_link.Reassembly.{H264Reassembler, EncodedFrame, FloatTiming}
use agora_link.Reassembly.Frames.{expire_inflight_frame, member}
use agora_link.Reassembly.Completion.{current_reorder_wait}
use agora_link.Reassembly.Release.{
  first_key, later_frame_known, checked_next, repair_pending, expire_all, keys_before, skip_target,
  count_gap, count_gap_event, skip_gap, timed_out, expire, Turn, stop, release, advance, blocked_at,
  block_gate, wait_turn, turn_at, turn_from, turn, proceed, value_or, take_loop, take_ready,
}
use agora_link.Reassembly.Release.Order.{
  GateAt, GateAt-mono, checked_next-GateAt, skip_target-GateAt, complete-skip_gap, pick,
}
use agora_link.Reassembly.Release.Waiting.{Waiting, Waiting-remove, Waiting-absent}
use agora_link.Reassembly.Release.Seen.{KeysTo-remove, To-set_remove, To-retain_from}
use agora_link.Reassembly.Soundness.{SoundTo, expire_inflight_frame-SoundTo}
use agora_link.Reassembly.Soundness.Stream.{IsSound, take_ready-Ends_sound}

expire_all-SoundTo :
    (h : ℕ) (s : H264Reassembler) (ks : List ℕ) → SoundTo h s → SoundTo h (expire_all s ks)
unfolding expire_all
expire_all-SoundTo h s [] b = b
expire_all-SoundTo h s (k ∷ ks) b =
    expire_all-SoundTo h (expire_inflight_frame s k) ks (expire_inflight_frame-SoundTo h s k b)

abbrev TurnSound : ℕ → Turn → Type 0
TurnSound h (stop s) = SoundTo h s
TurnSound h (advance s) = SoundTo h s
TurnSound h (release s f) = SoundTo h s

module _ (h : ℕ) (s : H264Reassembler) (n : ℕ) (b : SoundTo h s) (small : n ≤ u64_max)
    (w : Waiting n s.complete) where
  skip_gap-SoundTo : SoundTo h (skip_gap s n)
  unfolding skip_gap count_gap
  skip_gap-SoundTo =
      let ks : List ℕ = keys_before (skip_target (first_key s.complete) n) s.inflight in
      let left : SoundTo h (expire_all (count_gap_event s) ks) =
        expire_all-SoundTo h (count_gap_event s) ks b in
      record {
        real = left.real;
        budget = left.budget;
        slotted = left.slotted;
        in_flight = left.in_flight;
        waiting = left.waiting;
        skips =
            To-retain_from h (skip_target (first_key s.complete) n)
              (expire_all (count_gap_event s) ks).skipped left.skips;
        gate =
            subst (GateAt 0 (some (skip_target (first_key s.complete) n)))
              (sym (complete-skip_gap s n))
              (GateAt-mono 0 n (some (skip_target (first_key s.complete) n)) s.complete
                (omega arith) (skip_target-GateAt n s.complete small w));
        highest_eq = left.highest_eq;
      }

  passed-GateAt : (m : Map ℕ EncodedFrame) → Waiting (n + 1) m → GateAt 0 (checked_next n) m
  passed-GateAt m k =
      GateAt-mono 0 (n + 1) (checked_next n) m (omega arith) (checked_next-GateAt n m k)

module _ (float : FloatTiming) (h : ℕ) (now : ℕ) (force : Bool) where
  wait_turn-Sound :
      (s : H264Reassembler) (n : ℕ)
      → n ≤ u64_max
      → Waiting n s.complete
      → SoundTo h s
      → TurnSound h (wait_turn float s n now force)
  unfolding wait_turn
  wait_turn-Sound s n small w b =
      pick (TurnSound h) (not (later_frame_known s n))
        (not force
          && ltb (now - blocked_at float s.blocked_since now) (current_reorder_wait float s))
        (not force && repair_pending s n now) (stop (record s { blocked_since = none }))
        (stop (block_gate float s now)) (advance (skip_gap (block_gate float s now) n)) b b
        (λ later. skip_gap-SoundTo h (block_gate float s now) n b small w)

  turn_at-Sound :
      (s : H264Reassembler) (n : ℕ)
      → n ≤ u64_max
      → Waiting n s.complete
      → SoundTo h s
      → TurnSound h (turn_at float s n now force)
  unfolding turn_at
  turn_at-Sound s n small w b = elim (Option-cases (lookup n s.complete)) [
    | inr (f, p) ↦
        rw (turn_at, p)
          (record {
            real = b.real;
            budget = b.budget;
            slotted = b.slotted;
            in_flight = b.in_flight;
            waiting = KeysTo-remove h n s.complete b.waiting;
            skips = b.skips;
            gate =
                passed-GateAt h s n b small w (remove n s.complete) (Waiting-remove n s.complete w);
            highest_eq = b.highest_eq;
          })
    | inl p ↦ elim (Bool-cases (member n s.skipped)) [
      | inl q ↦
          rw (turn_at, p, q)
            (record {
              real = b.real;
              budget = b.budget;
              slotted = b.slotted;
              in_flight = b.in_flight;
              waiting = b.waiting;
              skips = To-set_remove h n s.skipped b.skips;
              gate = passed-GateAt h s n b small w s.complete (Waiting-absent n s.complete p w);
              highest_eq = b.highest_eq;
            })
      | inr q ↦ rw (turn_at, p, q) (wait_turn-Sound s n small w b)
    ]
  ]

  turn_from-Sound :
      (s : H264Reassembler) (next : Option ℕ)
      → GateAt 0 next s.complete
      → SoundTo h s
      → TurnSound h (turn_from float s next now force)
  turn_from-Sound s none g b = b
  turn_from-Sound s (some n) (lo, small, w) b = turn_at-Sound s n small w b

none-ne-some :
    {r : H264Reassembler × List EncodedFrame}
    → ◌≢◌ {A = Option (H264Reassembler × List EncodedFrame)} none (some r)
none-ne-some h = cc

state-eq :
    (a b : H264Reassembler × List EncodedFrame)
    → ◌≡◌ {A = Option (H264Reassembler × List EncodedFrame)} (some a) (some b)
    → a.0 ≡ b.0
state-eq a b e = let same : a ≡ b = cc in ap (λ r. r.0) same

proceed-Sound :
    (h : ℕ) (loop : H264Reassembler → Option (H264Reassembler × List EncodedFrame))
    → ((s : H264Reassembler) (r : H264Reassembler × List EncodedFrame)
        → SoundTo h s
        → loop s ≡ some r
        → SoundTo h r.0)
    → (t : Turn) (r : H264Reassembler × List EncodedFrame) → TurnSound h t
    → proceed loop t ≡ some r
    → SoundTo h r.0
proceed-Sound h loop ih (stop s) r k e = subst (SoundTo h) (state-eq (s, []) r e) k
proceed-Sound h loop ih (advance s) r k e = ih s r k e
proceed-Sound h loop ih (release s f) r k e = elim (Option-cases (loop s)) [
  | inl p ↦ absurd (none-ne-some (rw p at e))
  | inr (rest, p) ↦ subst (SoundTo h) (state-eq (rest.0, f ∷ rest.1) r (rw p at e)) (ih s rest k p)
]

take_loop-Sound :
    (float : FloatTiming) (h fuel : ℕ) (s : H264Reassembler) (now : ℕ) (force : Bool)
    (r : H264Reassembler × List EncodedFrame)
    → SoundTo h s
    → take_loop float fuel s now force ≡ some r
    → SoundTo h r.0
unfolding take_loop turn
take_loop-Sound float h zero s now force r b e = absurd (none-ne-some e)
take_loop-Sound float h (suc fuel) s now force r b e =
    proceed-Sound h (λ s'. take_loop float fuel s' now force)
      (λ s' r'. take_loop-Sound float h fuel s' now force r') (turn float s now force) r
      (turn_from-Sound float h now force s s.next_frame b.gate b) e

take_ready-IsSound :
    (float : FloatTiming) (s : H264Reassembler) (now : ℕ) (force : Bool)
    (r : H264Reassembler × List EncodedFrame)
    → IsSound s
    → take_ready float s now force ≡ some r
    → IsSound r.0
unfolding take_ready
take_ready-IsSound float s now force r (h, b) e = (
  h,
  take_loop-Sound float h (suc (value_or s.highest_seen_frame 0 + 1 - value_or s.next_frame 0)) s
      now force r b e,
)

-- Taking the frames that are ready from a sound reassembler ends, and leaves it sound.
pub take_ready-Sound :
    (float : FloatTiming) (s : H264Reassembler) (now : ℕ) (force : Bool)
    → IsSound s
    → (r : H264Reassembler × List EncodedFrame) × (take_ready float s now force ≡ some r)
      × IsSound r.0
take_ready-Sound float s now force b =
    let (r, e) = take_ready-Ends_sound float s now force b in
    (r, e, take_ready-IsSound float s now force r b e)

-- Expiring the frames that have timed out ends, and leaves a sound reassembler sound.
pub expire-Sound :
    (float : FloatTiming) (s : H264Reassembler) (now : ℕ)
    → IsSound s
    → (r : H264Reassembler × List EncodedFrame) × (expire float s now ≡ some r) × IsSound r.0
unfolding expire
expire-Sound float s now (h, b) =
    take_ready-Sound float (expire_all s (timed_out float s.config.frame_timeout now s.inflight))
      now false
      (h, expire_all-SoundTo h s (timed_out float s.config.frame_timeout now s.inflight) b)
