-- ===== src/Reassembly/Slots.antt =====
-- The packet slots of an in-flight frame, and the counts that are kept of them.
use agora_link.Prelude.{
  ℕ, zero, suc, ◌+◌, ◌-◌, ◌^◌, ◌≡◌, ◌≤◌, ◌<◌, refl, sym, ap, ◌∙◌, List, [], ◌∷◌, Option, none, some,
  length, get_elem?, set, replicate, Bool, true, ltb, Bool-cases, inl, inr, arith,
}
use agora_link.Wire.Media.{MediaPacket}
use agora_link.Reassembly.{FrameAssembly, new_assembly, confirmed_missing_count}
use agora_link.Reassembly.Completion.{position_none, put_recovered, give_up_parity}
use agora_link.Reassembly.Intake.{
  fill_slot, take_packet, slot_is_empty, touch, note_gap, accepted_packet, had_unrequested_gap,
}

abbrev empty_slots : List (Option (List ℕ)) → ℕ
empty_slots [] = 0
empty_slots (none ∷ packets) = suc (empty_slots packets)
empty_slots (some payload ∷ packets) = empty_slots packets

-- The counts of a frame are those of its slots, of which it has one for each packet.
pub record IsSlotted (f : FrameAssembly) : Type 0 where
  pub count_u16 : f.packet_count < 2 ^ 16
  pub slots : length f.packets ≡ f.packet_count
  pub missing : f.missing_count ≡ empty_slots f.packets
  pub received : f.received_count + f.missing_count ≡ f.packet_count

empty_slots-replicate : (n : ℕ) → empty_slots (replicate n none) ≡ n
empty_slots-replicate zero = refl
empty_slots-replicate (suc n) = omega (arith, empty_slots-replicate n)

length-replicate-none : (n : ℕ) → length (replicate {A = Option (List ℕ)} n none) ≡ n
length-replicate-none zero = refl
length-replicate-none (suc n) = omega (arith, length-replicate-none n)

empty_slots-le : (ps : List (Option (List ℕ))) → empty_slots ps ≤ length ps
empty_slots-le [] = omega arith
empty_slots-le (none ∷ ps) = omega (arith, empty_slots-le ps)
empty_slots-le (some a ∷ ps) = omega (arith, empty_slots-le ps)

length-set_slot :
    (ps : List (Option (List ℕ))) (i : ℕ) (a : List ℕ) → length (set ps i (some a)) ≡ length ps
length-set_slot [] i a = refl
length-set_slot (p ∷ ps) zero a = refl
length-set_slot (p ∷ ps) (suc i) a = omega (arith, length-set_slot ps i a)

-- Filling an empty slot leaves one less.
filled-set :
    (ps : List (Option (List ℕ))) (i : ℕ) (a : List ℕ)
    → slot_is_empty (get_elem? ps i) ≡ true
    → empty_slots (set ps i (some a)) + 1 ≡ empty_slots ps
filled-set [] i a e = absurd cc
filled-set (none ∷ ps) zero a e = omega arith
filled-set (some b ∷ ps) zero a e = absurd cc
filled-set (none ∷ ps) (suc i) a e = omega (arith, filled-set ps i a e)
filled-set (some b ∷ ps) (suc i) a e = omega (arith, filled-set ps i a e)

position_none-at :
    (ps : List (Option (List ℕ))) (i k : ℕ)
    → position_none ps i ≡ some k
    → (i ≤ k) × (slot_is_empty (get_elem? ps (k - i)) ≡ true)
unfolding position_none
position_none-at [] i k e = absurd cc
position_none-at (none ∷ ps) i k e =
    let q : i ≡ k = cc in
    (
      omega arith,
      ap (λ j. slot_is_empty (get_elem? (none ∷ ps) j)) {x = k - i} {y = 0} (omega arith),
    )
position_none-at (some a ∷ ps) i k e =
    let (le, at) = position_none-at ps (i + 1) k e in
    (
      omega arith,
      ap (λ j. slot_is_empty (get_elem? (some a ∷ ps) j)) {x = k - i} {y = suc (k - (i + 1))}
            (omega arith)
          ∙ at,
    )

pub new_assembly-IsSlotted :
    (n r now t : ℕ) (fec : Bool) → n < 2 ^ 16 → IsSlotted (new_assembly n r now t fec)
unfolding new_assembly
new_assembly-IsSlotted n r now t fec h = record {
  count_u16 = h;
  slots = length-replicate-none n;
  missing = sym (empty_slots-replicate n);
  received = omega arith;
}

fill_slot-IsSlotted :
    (f : FrameAssembly) (p : MediaPacket) (now : ℕ)
    → slot_is_empty (get_elem? f.packets p.packet_index) ≡ true
    → IsSlotted f
    → IsSlotted (fill_slot f p now)
unfolding fill_slot
fill_slot-IsSlotted f p now e h =
    let one_less : empty_slots (set f.packets p.packet_index (some p.payload)) + 1
        ≡ empty_slots f.packets =
      filled-set f.packets p.packet_index p.payload e in
    record {
      count_u16 = h.count_u16;
      slots = length-set_slot f.packets p.packet_index p.payload ∙ h.slots;
      missing = omega (arith, h.count_u16, h.missing, h.received);
      received = omega (arith, h.count_u16, h.missing, h.received);
    }

-- A frame that stands for another has its reservation and counts of its own slots.
pub record Replaces (old new : FrameAssembly) : Type 0 where
  pub same_count : new.packet_count ≡ old.packet_count
  pub same_bytes : new.reserved_payload_bytes ≡ old.reserved_payload_bytes
  pub slotted : IsSlotted new

take_packet-Replaces :
    (f : FrameAssembly) (p : MediaPacket) (now : ℕ) → IsSlotted f → Replaces f (take_packet f p now)
unfolding take_packet fill_slot
take_packet-Replaces f p now h =
    let touched : IsSlotted (touch f p now) = record {
      count_u16 = h.count_u16;
      slots = h.slots;
      missing = h.missing;
      received = h.received;
    } in
    elim (Bool-cases (slot_is_empty (get_elem? f.packets p.packet_index))) [
      | inl e ↦
          rw (take_packet, e)
            (record {
              same_count = refl;
              same_bytes = refl;
              slotted = fill_slot-IsSlotted (touch f p now) p now e touched;
            })
      | inr e ↦
          rw (take_packet, e) (record { same_count = refl; same_bytes = refl; slotted = touched })
    ]

note_gap-Replaces :
    (f g : FrameAssembly) (b : Bool) (now : ℕ) → Replaces f g → Replaces f (note_gap g b now)
unfolding note_gap
note_gap-Replaces f g b now h =
    let k : IsSlotted g = h.slotted in
    elim (Bool-cases (ltb 0 (confirmed_missing_count g))) [
      | inl p ↦
          rw (note_gap, p)
            (record {
              same_count = h.same_count;
              same_bytes = h.same_bytes;
              slotted = record {
                count_u16 = k.count_u16;
                slots = k.slots;
                missing = k.missing;
                received = k.received;
              };
            })
      | inr p ↦ elim (Bool-cases b) [
        | inl q ↦
            rw (note_gap, p, q)
              (record {
                same_count = h.same_count;
                same_bytes = h.same_bytes;
                slotted = record {
                  count_u16 = k.count_u16;
                  slots = k.slots;
                  missing = k.missing;
                  received = k.received;
                };
              })
        | inr q ↦ rw (note_gap, p, q) h
      ]
    ]

-- A packet whose slot is taken changes no slot.
pub accepted_packet-Replaces :
    (f : FrameAssembly) (p : MediaPacket) (now : ℕ)
    → IsSlotted f
    → Replaces f (accepted_packet f p now)
accepted_packet-Replaces f p now h =
    note_gap-Replaces f (take_packet f p now) (had_unrequested_gap f) now
      (take_packet-Replaces f p now h)

pub put_recovered-IsSlotted :
    (f : FrameAssembly) (i : ℕ) (payload : List ℕ)
    → f.missing_count ≡ 1
    → position_none f.packets 0 ≡ some i
    → IsSlotted f
    → IsSlotted (put_recovered f i payload)
unfolding put_recovered
put_recovered-IsSlotted f i payload one at h =
    let (le, e) = position_none-at f.packets 0 i at in
    let here : slot_is_empty (get_elem? f.packets i) ≡ true =
      ap (λ j. slot_is_empty (get_elem? f.packets j)) {x = i} {y = i - 0} (omega arith) ∙ e in
    let one_less : empty_slots (set f.packets i (some payload)) + 1 ≡ empty_slots f.packets =
      filled-set f.packets i payload here in
    record {
      count_u16 = h.count_u16;
      slots = length-set_slot f.packets i payload ∙ h.slots;
      missing = omega (arith, h.missing);
      received = omega (arith, h.count_u16, h.missing, h.received);
    }

pub give_up_parity-IsSlotted : (f : FrameAssembly) → IsSlotted f → IsSlotted (give_up_parity f)
unfolding give_up_parity
give_up_parity-IsSlotted f h = record {
  count_u16 = h.count_u16;
  slots = h.slots;
  missing = h.missing;
  received = h.received;
}
