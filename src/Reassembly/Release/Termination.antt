-- ===== src/Reassembly/Release/Termination.antt =====
-- The loop of `take_ready` ends: every turn but the last passes a frame id that was seen.
use mathlib.Core.Option
use mathlib.Core.Path.{subst}
use agora_link.Prelude.{
  ℕ, zero, suc, ◌+◌, ◌-◌, ◌≡◌, ◌≤◌, ◌<◌, refl, sym, ap, Bool, true, false, not, ◌&&◌, ltb, List, [],
  ◌∷◌, Option, none, some, arith, Bool-cases, Option-cases, inl, inr,
}
use agora_link.Map.{lookup, nat_eq}
use agora_link.Repair.{u64_max}
use agora_link.Reassembly.{H264Reassembler, EncodedFrame, FloatTiming}
use agora_link.Reassembly.Frames.{member}
use agora_link.Reassembly.Completion.{current_reorder_wait}
use agora_link.Reassembly.Release.{
  first_key, exceeds, later_frame_known, checked_next, repair_pending, skip_target, skip_gap, Turn,
  stop, release, advance, blocked_at, block_gate, wait_turn, turn_at, turn_from, turn, proceed,
  value_or, take_loop, take_ready,
}
use agora_link.Reassembly.Release.Order.{
  GateFrom, GateAt, TurnKeeps, turn_at-Keeps, next-skip_gap, pick,
}
use agora_link.Reassembly.Release.Waiting.{Waiting, Waiting-absent, first_key-some}
use agora_link.Reassembly.Release.Seen.{
  KeysTo-remove, KeysTo-lookup, KeysTo-first_key, member-To, To-set_remove, SeenTo, skip_gap-SeenTo,
}

-- What a turn leaves: it stops, or the gate moves past `n`, which is at most `h`.
abbrev MovedPast : ℕ → Option ℕ → Type 0
MovedPast n none = Unit
MovedPast n (some m) = n < m

abbrev Moves : ℕ → ℕ → H264Reassembler → Type 0
Moves h n s = (n ≤ h) × SeenTo h s × MovedPast n s.next_frame

abbrev TurnMoves : ℕ → ℕ → Turn → Type 0
TurnMoves h n (stop s) = Unit
TurnMoves h n (advance s) = Moves h n s
TurnMoves h n (release s f) = Moves h n s

checked_next-MovedPast : (n : ℕ) → MovedPast n (checked_next n)
checked_next-MovedPast n = elim (Bool-cases (ltb n u64_max)) [
  | inl p ↦ rw p (omega arith)
  | inr p ↦ rw p tt
]

moved_past : (n : ℕ) (a b : Option ℕ) → a ≡ b → MovedPast n b → MovedPast n a
moved_past n a b e m = rw e m

exceeds-lt : (o : Option ℕ) (n h : ℕ) → value_or o 0 ≡ h → exceeds o n ≡ true → n < h
exceeds-lt none n h e q = absurd cc
exceeds-lt (some k) n h e q = ground (arith, e, q)

module _ (h : ℕ) (real : h ≤ u64_max) (s : H264Reassembler) (n : ℕ) (b : SeenTo h s) where
  -- A later frame that is known is at most `h`.
  later-lt : not (later_frame_known s n) ≡ false → n < h
  later-lt e = elim (Bool-cases (exceeds s.highest_seen_frame n)) [
    | inl q ↦ exceeds-lt s.highest_seen_frame n h b.highest q
    | inr q ↦ elim (Option-cases (first_key s.complete)) [
      | inl p ↦ ground (arith, (rw (p, q) at e))
      | inr (k, p) ↦
          let le : k ≤ h = KeysTo-first_key h k s.complete p b.waiting in
          ground (arith, (rw (p, q) at e), le)
    ]
  ]

  skip_target-MovedPast :
      n < h
      → lookup n s.complete ≡ none
      → Waiting n s.complete
      → MovedPast n (some (skip_target (first_key s.complete) n))
  skip_target-MovedPast lt absent w = elim (Option-cases (first_key s.complete)) [
    | inl p ↦ rw p (omega arith)
    | inr (k, p) ↦ rw p (
        omega
          (arith, (first_key-some (n + 1) s.complete k p (Waiting-absent n s.complete absent w)).0))
  ]

  module _ (float : FloatTiming) (now : ℕ) (force : Bool) where
    wait_turn-Moves :
        lookup n s.complete ≡ none
        → Waiting n s.complete
        → TurnMoves h n (wait_turn float s n now force)
    unfolding wait_turn
    wait_turn-Moves absent w =
        pick (TurnMoves h n) (not (later_frame_known s n))
          (not force
            && ltb (now - blocked_at float s.blocked_since now) (current_reorder_wait float s))
          (not force && repair_pending s n now) (stop (record s { blocked_since = none }))
          (stop (block_gate float s now)) (advance (skip_gap (block_gate float s now) n)) tt tt
          (λ later. (
            omega (arith, later-lt later),
            skip_gap-SeenTo h (block_gate float s now) n (record {
              highest = b.highest;
              in_flight = b.in_flight;
              waiting = b.waiting;
              skipped = b.skipped;
            }),
            moved_past n _ _ (next-skip_gap (block_gate float s now) n)
                (skip_target-MovedPast (later-lt later) absent w),
          ))

    turn_at-Moves : Waiting n s.complete → TurnMoves h n (turn_at float s n now force)
    unfolding turn_at
    turn_at-Moves w = elim (Option-cases (lookup n s.complete)) [
      | inr (f, p) ↦
          rw (turn_at, p)
            (
              KeysTo-lookup h n s.complete f p b.waiting,
              record {
                highest = b.highest;
                in_flight = b.in_flight;
                waiting = KeysTo-remove h n s.complete b.waiting;
                skipped = b.skipped;
              },
              checked_next-MovedPast n,
            )
      | inl p ↦ elim (Bool-cases (member n s.skipped)) [
        | inl q ↦
            rw (turn_at, p, q)
              (
                member-To h n s.skipped q b.skipped,
                record {
                  highest = b.highest;
                  in_flight = b.in_flight;
                  waiting = b.waiting;
                  skipped = To-set_remove h n s.skipped b.skipped;
                },
                checked_next-MovedPast n,
              )
        | inr q ↦ rw (turn_at, p, q) (wait_turn-Moves p w)
      ]
    ]

abbrev FuelFor : ℕ → ℕ → Option ℕ → Type 0
FuelFor h fuel none = 0 < fuel
FuelFor h fuel (some n) = h + 1 - n < fuel

FuelFor-next :
    (h fuel n : ℕ) (next : Option ℕ)
    → n ≤ h
    → h + 1 - n < suc fuel
    → MovedPast n next
    → FuelFor h fuel next
FuelFor-next h fuel n none le lt m = omega arith
FuelFor-next h fuel n (some k) le lt m = omega arith

abbrev Ends : Option (H264Reassembler × List EncodedFrame) → Type 0
Ends o = (r : H264Reassembler × List EncodedFrame) × (o ≡ some r)

Ends-with :
    (f : EncodedFrame) (o : Option (H264Reassembler × List EncodedFrame))
    → Ends o
    → Ends (Option.map (λ r. (r.0, f ∷ r.1)) o)
Ends-with f o (r, e) = ((r.0, f ∷ r.1), rw e refl)

module _ (h fuel n : ℕ) (enough : h + 1 - n < suc fuel) where
  proceed-Ends :
      (loop : H264Reassembler → Option (H264Reassembler × List EncodedFrame))
      → ((s : H264Reassembler) (lo : ℕ)
          → SeenTo h s
          → GateFrom lo s
          → FuelFor h fuel s.next_frame
          → Ends (loop s))
      → (t : Turn) (lo : ℕ) → TurnKeeps lo t
      → TurnMoves h n t
      → Ends (proceed loop t)
  proceed-Ends loop ih (stop s) lo k m = ((s, []), refl)
  proceed-Ends loop ih (advance s) lo k (le, seen, past) =
      ih s lo seen k (FuelFor-next h fuel n s.next_frame le enough past)
  proceed-Ends loop ih (release s f) lo k (le, seen, past) =
      Ends-with f (loop s)
        (ih s (f.frame_id + 1) seen k.1 (FuelFor-next h fuel n s.next_frame le enough past))

module _ (float : FloatTiming) (h : ℕ) (real : h ≤ u64_max) (now : ℕ) (force : Bool) where
  turn_of-stopped : (s : H264Reassembler) → s.next_frame ≡ none → turn float s now force ≡ stop s
  unfolding turn
  turn_of-stopped s p = ap (λ next. turn_from float s next now force) p

  turn_of-gate :
      (s : H264Reassembler) (n : ℕ)
      → s.next_frame ≡ some n
      → turn float s now force ≡ turn_at float s n now force
  unfolding turn
  turn_of-gate s n p = ap (λ next. turn_from float s next now force) p

  take_loop-Ends :
      (fuel : ℕ) (s : H264Reassembler) (lo : ℕ)
      → SeenTo h s
      → GateFrom lo s
      → FuelFor h fuel s.next_frame
      → Ends (take_loop float fuel s now force)
  unfolding take_loop
  take_loop-Ends zero s lo seen gate enough = elim (Option-cases s.next_frame) [
    | inl p ↦ let bad : 0 < 0 = rw p at enough in absurd (omega arith)
    | inr (n, p) ↦ let bad : h + 1 - n < 0 = rw p at enough in absurd (omega arith)
  ]
  take_loop-Ends (suc fuel) s lo seen gate enough = elim (Option-cases s.next_frame) [
    | inl p ↦
        ((s, []), ap (proceed (λ s'. take_loop float fuel s' now force)) (turn_of-stopped s p))
    | inr (n, p) ↦
        let (low, small, w) : GateAt lo (some n) s.complete = rw p at gate in
        subst (λ t. Ends (proceed (λ s'. take_loop float fuel s' now force) t))
          (sym (turn_of-gate s n p))
          (proceed-Ends h fuel n (rw p at enough) (λ s'. take_loop float fuel s' now force)
            (λ s' lo' seen' gate' enough'. take_loop-Ends fuel s' lo' seen' gate' enough')
            (turn_at float s n now force) n (turn_at-Keeps float s n now force small p w)
            (turn_at-Moves h real s n seen float now force w))
  ]

  ready_fuel :
      (s : H264Reassembler)
      → value_or s.highest_seen_frame 0 ≡ h
      → FuelFor h (suc (value_or s.highest_seen_frame 0 + 1 - value_or s.next_frame 0)) s.next_frame
  ready_fuel s e = elim (Option-cases s.next_frame) [
    | inl p ↦ rw (e, p) (omega arith)
    | inr (n, p) ↦ rw (e, p) (omega arith)
  ]

-- The loop that releases frames ends within its fuel, whether it is forced or not, where nothing is
-- kept of a frame past the highest id that was seen and no waiting frame is before the gate.
pub take_ready-Ends :
    (float : FloatTiming) (s : H264Reassembler) (h now : ℕ) (force : Bool) (lo : ℕ)
    → h ≤ u64_max
    → SeenTo h s
    → GateFrom lo s
    → (r : H264Reassembler × List EncodedFrame) × (take_ready float s now force ≡ some r)
unfolding take_ready
take_ready-Ends float s h now force lo real seen gate =
    take_loop-Ends float h real now force
      (suc (value_or s.highest_seen_frame 0 + 1 - value_or s.next_frame 0)) s lo seen gate
      (ready_fuel float h real now force s seen.highest)
