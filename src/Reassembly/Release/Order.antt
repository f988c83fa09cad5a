-- ===== src/Reassembly/Release/Order.antt =====
-- Frames are released in increasing order of their ids.
use mathlib.Core.Path.{subst}
use agora_link.Prelude.{
  ℕ, zero, suc, ◌+◌, ◌-◌, ◌≡◌, ◌≢◌, ◌≤◌, ◌<◌, refl, sym, ◌∙◌, Bool, true, false, not, ◌&&◌, ltb,
  List, [], ◌∷◌, Option, none, some, if◌then◌else◌, arith, Bool-cases, Option-cases, inl, inr,
}
use agora_link.Map.{Map, lookup, remove, nat_eq}
use agora_link.Repair.{u64_max}
use agora_link.Reassembly.{H264Reassembler, EncodedFrame, FloatTiming}
use agora_link.Reassembly.Frames.{skip_frame, release_frame, expire_inflight_frame, member}
use agora_link.Reassembly.Frames.Cases.{expire_absent, expire_found}
use agora_link.Reassembly.Completion.{current_reorder_wait}
use agora_link.Reassembly.Release.{
  first_key, later_frame_known, checked_next, repair_pending, expire_all, keys_before, skip_target,
  count_gap, count_gap_event, skip_gap, Turn, stop, release, advance, blocked_at, block_gate,
  wait_turn, turn_at, turn_from, turn, proceed, value_or, take_loop, take_ready,
}
use agora_link.Reassembly.Release.Waiting.{
  Waiting, Waiting-remove, Waiting-absent, Waiting-found, first_key-none, first_key-some,
}

complete-expire_inflight_frame :
    (s : H264Reassembler) (k : ℕ) → (expire_inflight_frame s k).complete ≡ s.complete
unfolding skip_frame release_frame
complete-expire_inflight_frame s k = elim (Option-cases (lookup k s.inflight)) [
  | inl p ↦ rw (expire_absent s k p) refl
  | inr (f, p) ↦ rw (expire_found s k f p) refl
]

complete-expire_all : (s : H264Reassembler) (ks : List ℕ) → (expire_all s ks).complete ≡ s.complete
unfolding expire_all
complete-expire_all s [] = refl
complete-expire_all s (k ∷ ks) =
    complete-expire_all (expire_inflight_frame s k) ks ∙ complete-expire_inflight_frame s k

-- The gate stands at `lo` or later, and no waiting frame is before it; a gate that was never set, or
-- has passed every id, has no waiting frame.
abbrev pub GateAt : ℕ → Option ℕ → Map ℕ EncodedFrame → Type 0
GateAt lo none m = m ≡ []
GateAt lo (some n) m = (lo ≤ n) × (n ≤ u64_max) × Waiting n m

abbrev pub GateFrom : ℕ → H264Reassembler → Type 0
GateFrom lo s = GateAt lo s.next_frame s.complete

pub GateAt-mono :
    (lo hi : ℕ) (next : Option ℕ) (m : Map ℕ EncodedFrame)
    → lo ≤ hi
    → GateAt hi next m
    → GateAt lo next m
GateAt-mono lo hi none m h g = g
GateAt-mono lo hi (some n) m h (a, b, w) = (omega arith, b, w)

abbrev pub TurnKeeps : ℕ → Turn → Type 0
TurnKeeps lo (stop s) = GateFrom lo s
TurnKeeps lo (advance s) = GateFrom lo s
TurnKeeps lo (release s f) = (lo ≤ f.frame_id) × GateFrom (f.frame_id + 1) s

none-waits : (m : Map ℕ EncodedFrame) (n : ℕ) → u64_max < n → Waiting n m → m ≡ []
none-waits [] n h w = refl
none-waits ((k, f) ∷ m) n h w = absurd (omega (arith, w.0.0, w.0.1))

pub checked_next-GateAt :
    (n : ℕ) (m : Map ℕ EncodedFrame) → Waiting (n + 1) m → GateAt (n + 1) (checked_next n) m
checked_next-GateAt n m w = elim (Bool-cases (ltb n u64_max)) [
  | inl p ↦ rw p (omega arith, ground (arith, p), w)
  | inr p ↦ rw p (none-waits m (n + 1) (ground (arith, p)) w)
]

pub complete-skip_gap : (s : H264Reassembler) (n : ℕ) → (skip_gap s n).complete ≡ s.complete
unfolding skip_gap count_gap
complete-skip_gap s n =
    complete-expire_all (count_gap_event s)
      (keys_before (skip_target (first_key s.complete) n) s.inflight)

pub next-skip_gap :
    (s : H264Reassembler) (n : ℕ)
    → (skip_gap s n).next_frame ≡ some (skip_target (first_key s.complete) n)
unfolding skip_gap
next-skip_gap s n = refl

pub skip_target-GateAt :
    (n : ℕ) (m : Map ℕ EncodedFrame)
    → n ≤ u64_max
    → Waiting n m
    → GateAt n (some (skip_target (first_key m) n)) m
skip_target-GateAt n m small w = elim (Option-cases (first_key m)) [
  | inl p ↦ rw p (omega arith, omega arith, first_key-none m _ p)
  | inr (k, p) ↦ rw p (first_key-some n m k p w)
]

moved :
    (lo : ℕ) (next next' : Option ℕ) (m m' : Map ℕ EncodedFrame)
    → next ≡ next'
    → m ≡ m'
    → GateAt lo next' m'
    → GateAt lo next m
moved lo next next' m m' e d g = rw (e, d) g

-- A turn that is picked by tests has what all of them have.
pub pick :
    (P : Turn → Type 0) (a b c : Bool) (x y z : Turn)
    → P x
    → P y
    → (a ≡ false → P z)
    → P (if a then x else if b then y else if c then y else z)
pick P true b c x y z px py pz = px
pick P false true c x y z px py pz = py
pick P false false true x y z px py pz = py
pick P false false false x y z px py pz = pz refl

TurnKeeps-mono : (lo hi : ℕ) (t : Turn) → lo ≤ hi → TurnKeeps hi t → TurnKeeps lo t
TurnKeeps-mono lo hi (stop s) h k = GateAt-mono lo hi s.next_frame s.complete h k
TurnKeeps-mono lo hi (advance s) h k = GateAt-mono lo hi s.next_frame s.complete h k
TurnKeeps-mono lo hi (release s f) h k = (omega (arith, k.0), k.1)

-- The frames have strictly increasing ids, from `lo` on.
abbrev pub Ascending : ℕ → List EncodedFrame → Type 0
Ascending lo [] = Unit
Ascending lo (f ∷ fs) = (lo ≤ f.frame_id) × Ascending (f.frame_id + 1) fs

abbrev Released : ℕ → H264Reassembler × List EncodedFrame → Type 0
Released lo r = Ascending lo r.1 × GateFrom lo r.0

none-ne-some :
    {r : H264Reassembler × List EncodedFrame}
    → ◌≢◌ {A = Option (H264Reassembler × List EncodedFrame)} none (some r)
none-ne-some h = cc

Released-first :
    (s : H264Reassembler) (f : EncodedFrame) (lo : ℕ) (rest r : H264Reassembler × List EncodedFrame)
    → lo ≤ f.frame_id
    → Released (f.frame_id + 1) rest
    → ◌≡◌ {A = Option (H264Reassembler × List EncodedFrame)} (some (rest.0, f ∷ rest.1)) (some r)
    → Released lo r
Released-first s f lo rest r h k e =
    let same : (rest.0, f ∷ rest.1) ≡ r = cc in
    subst (Released lo) same (
      (h, k.0),
      GateAt-mono lo (f.frame_id + 1) rest.0.next_frame rest.0.complete (omega arith) k.1,
    )

proceed-Released :
    (loop : H264Reassembler → Option (H264Reassembler × List EncodedFrame))
    → ((s : H264Reassembler) (lo : ℕ) (r : H264Reassembler × List EncodedFrame)
        → GateFrom lo s
        → loop s ≡ some r
        → Released lo r)
    → (t : Turn) (lo : ℕ) (r : H264Reassembler × List EncodedFrame) → TurnKeeps lo t
    → proceed loop t ≡ some r
    → Released lo r
proceed-Released loop ih (stop s) lo r k h =
    let same : (s, []) ≡ r = cc in subst (Released lo) same (tt, k)
proceed-Released loop ih (advance s) lo r k h = ih s lo r k h
proceed-Released loop ih (release s f) lo r k h = elim (Option-cases (loop s)) [
  | inl p ↦ absurd (none-ne-some (rw p at h))
  | inr (rest, p) ↦ Released-first s f lo rest r k.0 (ih s (f.frame_id + 1) rest k.1 p) (rw p at h)
]

module _ (float : FloatTiming) where
  wait_turn-Keeps :
      (s : H264Reassembler) (n now : ℕ) (force : Bool)
      → n ≤ u64_max
      → s.next_frame ≡ some n
      → Waiting n s.complete
      → TurnKeeps n (wait_turn float s n now force)
  unfolding wait_turn
  wait_turn-Keeps s n now force small at_n w =
      let here : GateFrom n s = rw at_n (omega arith, small, w) in
      let later : GateFrom n (skip_gap (block_gate float s now) n) =
        moved n _ _ _ _ (next-skip_gap (block_gate float s now) n)
          (complete-skip_gap (block_gate float s now) n)
          (skip_target-GateAt n s.complete small w) in
      pick (TurnKeeps n) (not (later_frame_known s n))
        (not force
          && ltb (now - blocked_at float s.blocked_since now) (current_reorder_wait float s))
        (not force && repair_pending s n now) (stop (record s { blocked_since = none }))
        (stop (block_gate float s now)) (advance (skip_gap (block_gate float s now) n)) here here
        (λ later_known. later)

  pub turn_at-Keeps :
      (s : H264Reassembler) (n now : ℕ) (force : Bool)
      → n ≤ u64_max
      → s.next_frame ≡ some n
      → Waiting n s.complete
      → TurnKeeps n (turn_at float s n now force)
  unfolding turn_at
  turn_at-Keeps s n now force small at_n w = elim (Option-cases (lookup n s.complete)) [
    | inr (f, p) ↦
        let e : f.frame_id ≡ n = Waiting-found n n s.complete f p w in
        rw (turn_at, p)
          (
            omega arith,
            rw e (checked_next-GateAt n (remove n s.complete) (Waiting-remove n s.complete w)),
          )
    | inl p ↦ elim (Bool-cases (member n s.skipped)) [
      | inl q ↦
          rw (turn_at, p, q)
            (GateAt-mono n (n + 1) (checked_next n) s.complete (omega arith)
              (checked_next-GateAt n s.complete (Waiting-absent n s.complete p w)))
      | inr q ↦ rw (turn_at, p, q) (wait_turn-Keeps s n now force small at_n w)
    ]
  ]

  turn_from-Keeps :
      (s : H264Reassembler) (next : Option ℕ) (now : ℕ) (force : Bool) (lo : ℕ)
      → s.next_frame ≡ next
      → GateAt lo next s.complete
      → TurnKeeps lo (turn_from float s next now force)
  turn_from-Keeps s none now force lo at_next g =
      subst (λ next. GateAt lo next s.complete) (sym at_next) g
  turn_from-Keeps s (some n) now force lo at_next (low, small, w) =
      TurnKeeps-mono lo n (turn_at float s n now force) low
        (turn_at-Keeps s n now force small at_next w)

  turn-Keeps :
      (s : H264Reassembler) (now : ℕ) (force : Bool) (lo : ℕ)
      → GateFrom lo s
      → TurnKeeps lo (turn float s now force)
  unfolding turn
  turn-Keeps s now force lo g = turn_from-Keeps s s.next_frame now force lo refl g

  take_loop-Released :
      (fuel : ℕ) (s : H264Reassembler) (now : ℕ) (force : Bool) (lo : ℕ)
      (r : H264Reassembler × List EncodedFrame)
      → GateFrom lo s
      → take_loop float fuel s now force ≡ some r
      → Released lo r
  unfolding take_loop
  take_loop-Released zero s now force lo r g h = absurd (none-ne-some h)
  take_loop-Released (suc fuel) s now force lo r g h =
      proceed-Released (λ s'. take_loop float fuel s' now force)
        (λ s' lo' r'. take_loop-Released fuel s' now force lo' r') (turn float s now force) lo r
        (turn-Keeps s now force lo g) h

  -- Where no waiting frame is before the gate, the frames that are released are at or after the gate,
  -- in strictly increasing order of their ids, and afterwards no waiting frame is before the gate.
  pub take_ready-Ascending :
      (s : H264Reassembler) (now : ℕ) (force : Bool) (lo : ℕ)
      (r : H264Reassembler × List EncodedFrame)
      → GateFrom lo s
      → take_ready float s now force ≡ some r
      → Ascending lo r.1 × GateFrom lo r.0
  unfolding take_ready
  take_ready-Ascending s now force lo r g h =
      take_loop-Released (suc (value_or s.highest_seen_frame 0 + 1 - value_or s.next_frame 0)) s now
        force lo r g h
