-- ===== src/Reassembly/Release/Seen.antt =====
-- Nothing is kept of a frame past the highest id that was seen.
use mathlib.Core.Path.{subst}
use agora_link.Prelude.{
  ℕ, ◌≡◌, ◌≤◌, sym, min, true, leb, List, [], ◌∷◌, some, All, arith, Bool-cases, Option-cases, inl,
  inr, ==→eq, ◌==◌,
}
use agora_link.Map.{Map, lookup, remove, nat_eq}
use agora_link.Reassembly.{H264Reassembler, EncodedFrame, FrameAssembly}
use agora_link.Reassembly.Frames.{
  skip_frame, release_frame, expire_inflight_frame, member, set_insert, set_remove,
}
use agora_link.Reassembly.Frames.Cases.{expire_absent, expire_found}
use agora_link.Reassembly.Release.{
  first_key, expire_all, keys_before, skip_target, count_gap, count_gap_event, skip_gap,
  retain_from, value_or,
}

-- No key of a map is past `h`.
abbrev pub KeysTo : {V : Type 0} → ℕ → Map ℕ V → Type 0
KeysTo h = All (λ e. e.0 ≤ h)

pub KeysTo-remove : {V : Type 0} (h k : ℕ) (m : Map ℕ V) → KeysTo h m → KeysTo h (remove k m)
unfolding remove
KeysTo-remove h k [] a = tt
KeysTo-remove h k ((j, v) ∷ m) a = elim (Bool-cases (j == k)) [
  | inl p ↦ rw p (KeysTo-remove h k m a.1)
  | inr p ↦ rw p (a.0, KeysTo-remove h k m a.1)
]

pub KeysTo-lookup :
    {V : Type 0} (h k : ℕ) (m : Map ℕ V) (v : V) → lookup k m ≡ some v → KeysTo h m → k ≤ h
unfolding lookup
KeysTo-lookup h k [] v e a = absurd cc
KeysTo-lookup h k ((j, w) ∷ m) v e a = elim (Bool-cases (j == k)) [
  | inl p ↦ omega (arith, ==→eq j k p, a.0)
  | inr p ↦ KeysTo-lookup h k m v (rw p at e) a.1
]

pub KeysTo-first_key :
    (h k : ℕ) (m : Map ℕ EncodedFrame) → first_key m ≡ some k → KeysTo h m → k ≤ h
unfolding first_key
KeysTo-first_key h k [] e a = absurd cc
KeysTo-first_key h k ((j, f) ∷ m) e a = elim (Option-cases (first_key m)) [
  | inl p ↦ let same : some j ≡ some k = rw p at e in let q : j ≡ k = cc in omega (arith, a.0)
  | inr (i, p) ↦
      let same : some (min j i) ≡ some k = rw p at e in
      let q : min j i ≡ k = cc in omega (arith, a.0)
]

abbrev pub To : ℕ → ℕ → Type 0
To h k = k ≤ h

pub member-To : (h k : ℕ) (ks : List ℕ) → member k ks ≡ true → All (To h) ks → k ≤ h
unfolding member
member-To h k [] e a = absurd cc
member-To h k (j ∷ ks) e a = elim (Bool-cases (j == k)) [
  | inl p ↦ omega (arith, ==→eq j k p, a.0)
  | inr p ↦ member-To h k ks (rw p at e) a.1
]

pub To-set_insert : (h k : ℕ) (ks : List ℕ) → k ≤ h → All (To h) ks → All (To h) (set_insert k ks)
unfolding set_insert
To-set_insert h k ks le a = elim (Bool-cases (member k ks)) [
  | inl p ↦ rw p a
  | inr p ↦ rw p (le, a)
]

pub To-set_remove : (h k : ℕ) (ks : List ℕ) → All (To h) ks → All (To h) (set_remove k ks)
unfolding set_remove
To-set_remove h k [] a = tt
To-set_remove h k (j ∷ ks) a = elim (Bool-cases (j == k)) [
  | inl p ↦ rw p (To-set_remove h k ks a.1)
  | inr p ↦ rw p (a.0, To-set_remove h k ks a.1)
]

pub To-retain_from : (h k : ℕ) (ks : List ℕ) → All (To h) ks → All (To h) (retain_from k ks)
unfolding retain_from
To-retain_from h k [] a = tt
To-retain_from h k (j ∷ ks) a = elim (Bool-cases (leb k j)) [
  | inl p ↦ rw p (a.0, To-retain_from h k ks a.1)
  | inr p ↦ rw p (To-retain_from h k ks a.1)
]

-- `h` is the highest frame id that was seen, and nothing is kept of a later frame.
pub record SeenTo (h : ℕ) (s : H264Reassembler) : Type 0 where
  pub highest : value_or s.highest_seen_frame 0 ≡ h
  pub in_flight : KeysTo h s.inflight
  pub waiting : KeysTo h s.complete
  pub skipped : All (To h) s.skipped

expired-SeenTo :
    (h : ℕ) (s : H264Reassembler) (k : ℕ) (f : FrameAssembly)
    → k ≤ h
    → SeenTo h s
    → SeenTo h (skip_frame (release_frame s k f) k f)
unfolding skip_frame release_frame
expired-SeenTo h s k f le b = record {
  highest = b.highest;
  in_flight = KeysTo-remove h k s.inflight b.in_flight;
  waiting = b.waiting;
  skipped = To-set_insert h k s.skipped le b.skipped;
}

expire-SeenTo :
    (h : ℕ) (s : H264Reassembler) (k : ℕ) → SeenTo h s → SeenTo h (expire_inflight_frame s k)
expire-SeenTo h s k b = elim (Option-cases (lookup k s.inflight)) [
  | inl p ↦ subst (SeenTo h) (sym (expire_absent s k p)) b
  | inr (f, p) ↦
      subst (SeenTo h) (sym (expire_found s k f p))
        (expired-SeenTo h s k f (KeysTo-lookup h k s.inflight f p b.in_flight) b)
]

expire_all-SeenTo :
    (h : ℕ) (s : H264Reassembler) (ks : List ℕ) → SeenTo h s → SeenTo h (expire_all s ks)
unfolding expire_all
expire_all-SeenTo h s [] b = b
expire_all-SeenTo h s (k ∷ ks) b =
    expire_all-SeenTo h (expire_inflight_frame s k) ks (expire-SeenTo h s k b)

pub skip_gap-SeenTo : (h : ℕ) (s : H264Reassembler) (n : ℕ) → SeenTo h s → SeenTo h (skip_gap s n)
unfolding skip_gap count_gap
skip_gap-SeenTo h s n b =
    let left : SeenTo h (
        expire_all (count_gap_event s)
          (keys_before (skip_target (first_key s.complete) n) s.inflight)) =
      expire_all-SeenTo h (count_gap_event s)
        (keys_before (skip_target (first_key s.complete) n) s.inflight)
        (record {
          highest = b.highest;
          in_flight = b.in_flight;
          waiting = b.waiting;
          skipped = b.skipped;
        }) in
    record {
      highest = left.highest;
      in_flight = left.in_flight;
      waiting = left.waiting;
      skipped = To-retain_from h _ _ left.skipped;
    }
