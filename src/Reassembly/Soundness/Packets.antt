-- ===== src/Reassembly/Soundness/Packets.antt =====
-- An arriving packet keeps the invariant of the reassembler.
use mathlib.Core.Path.{subst}
use agora_link.Prelude.{
  ℕ, ◌+◌, ◌≡◌, ◌≤◌, refl, sym, ap, Bool, true, false, not, ltb, leb, ◌==◌, Option, none, some,
  length, Bool-cases, Option-cases, inl, inr, Result, ok, err,
}
use agora_link.Map.{lookup, nat_eq}
use agora_link.Wire.Media.{MediaPacket, max_video_frame_bytes}
use agora_link.Wire.Fec.{FecParity, FecError, decode_owned}
use agora_link.Fec.{flag_fec_protected}
use agora_link.Reassembly.{H264Reassembler, FrameAssembly, FloatTiming}
use agora_link.Reassembly.Frames.{
  reject_new_frame_for_budget, ensure_inflight_frame, frame_payload_reservation, fits_budget,
  reserve_frame,
}
use agora_link.Reassembly.Frames.Cases.{
  ensure_present, ensure_invalid, ensure_reserved, ensure_refused,
}
use agora_link.Reassembly.Completion.{put_frame}
use agora_link.Reassembly.Arrival.{
  store_packet, place_data_packet, place_found, place_ensured, accept_data_packet, with_parity,
  count_bad_parity, count_parity, place_parity, mark_invalid, reject_parity, parity_found,
  parity_ensured, accept_parity, fec_decoded, accept_fec_packet,
}
use agora_link.Reassembly.Intake.{has_flag, accepted_packet, count_packet, reject_oversize}
use agora_link.Reassembly.Slots.{IsSlotted, Replaces, accepted_packet-Replaces}
use agora_link.Reassembly.Soundness.{
  SoundTo, All-lookup, put_frame-SoundTo, expire_inflight_frame-SoundTo,
  ensure_inflight_frame-SoundTo, NotBefore,
}
use agora_link.Reassembly.Soundness.Attempts.{try_complete_frame-SoundTo}

oversize-SoundTo :
    (h : ℕ) (s : H264Reassembler) (k : ℕ) → SoundTo h s → SoundTo h (reject_oversize s k)
unfolding reject_oversize
oversize-SoundTo h s k b = expire_inflight_frame-SoundTo h _ k b

module _ (float : FloatTiming) (h : ℕ) (s : H264Reassembler) (packet : MediaPacket) (now : ℕ)
    (after : NotBefore packet.frame_id s.next_frame) (b : SoundTo h s) where
  store_packet-SoundTo :
      (f : FrameAssembly)
      → lookup packet.frame_id s.inflight ≡ some f
      → SoundTo h (store_packet float s f packet now)
  unfolding store_packet count_packet put_frame
  store_packet-SoundTo f p =
      let r : Replaces f (accepted_packet f packet now) =
        accepted_packet-Replaces f packet now
          (All-lookup IsSlotted packet.frame_id s.inflight f p b.slotted) in
      try_complete_frame-SoundTo float h
        (put_frame (count_packet s f packet now) packet.frame_id (accepted_packet f packet now))
        packet.frame_id after
        (put_frame-SoundTo h (count_packet s f packet now) packet.frame_id b f
          (accepted_packet f packet now) p r.same_count r.same_bytes r.slotted)

  place_data_packet-SoundTo :
      (f : FrameAssembly)
      → lookup packet.frame_id s.inflight ≡ some f
      → SoundTo h (place_data_packet float s f packet now)
  unfolding place_data_packet
  place_data_packet-SoundTo f p =
      elim (Bool-cases (ltb max_video_frame_bytes (f.received_bytes + length packet.payload))) [
        | inl e ↦ rw (place_data_packet, e) (oversize-SoundTo h s packet.frame_id b)
        | inr e ↦ elim (Bool-cases (not (f.packet_count == packet.packet_count))) [
          | inl q ↦ rw (place_data_packet, e, q) b
          | inr q ↦ elim (Bool-cases (leb (length f.packets) packet.packet_index)) [
            | inl r ↦ rw (place_data_packet, e, q, r) b
            | inr r ↦ rw (place_data_packet, e, q, r) (store_packet-SoundTo f p)
          ]
        ]
      ]

  place_found-SoundTo :
      (o : Option FrameAssembly)
      → lookup packet.frame_id s.inflight ≡ o
      → SoundTo h (place_found float s o packet now)
  place_found-SoundTo none p = b
  place_found-SoundTo (some f) p = place_data_packet-SoundTo f p

  place_parity-SoundTo :
      (f : FrameAssembly) (parity : FecParity)
      → lookup packet.frame_id s.inflight ≡ some f
      → SoundTo h (place_parity float s f packet parity now)
  unfolding place_parity put_frame
  place_parity-SoundTo f parity p =
      let k : IsSlotted f = All-lookup IsSlotted packet.frame_id s.inflight f p b.slotted in
      elim (Bool-cases (not (f.packet_count == parity.data_packet_count))) [
        | inl e ↦ rw (place_parity, e) b
        | inr e ↦
            rw (place_parity, e)
              (try_complete_frame-SoundTo float h
                (put_frame (count_parity float s f) packet.frame_id
                  (with_parity float f parity packet.flags now))
                packet.frame_id after
                (put_frame-SoundTo h (count_parity float s f) packet.frame_id b f
                  (with_parity float f parity packet.flags now) p refl refl
                  (record {
                    count_u16 = k.count_u16;
                    slots = k.slots;
                    missing = k.missing;
                    received = k.received;
                  })))
      ]

  parity_found-SoundTo :
      (o : Option FrameAssembly) (parity : FecParity)
      → lookup packet.frame_id s.inflight ≡ o
      → SoundTo h (parity_found float s o packet parity now)
  parity_found-SoundTo none parity p = b
  parity_found-SoundTo (some f) parity p = place_parity-SoundTo f parity p

mark_invalid-SoundTo :
    (float : FloatTiming) (h : ℕ) (s : H264Reassembler) (k : ℕ) (o : Option FrameAssembly)
    → SoundTo h s
    → lookup k s.inflight ≡ o
    → SoundTo h (mark_invalid float s k o)
unfolding put_frame
mark_invalid-SoundTo float h s k none b p = b
mark_invalid-SoundTo float h s k (some f) b p =
    let g : IsSlotted f = All-lookup IsSlotted k s.inflight f p b.slotted in
    put_frame-SoundTo h s k b f (record f { fec_invalid = true }) p refl refl
      (record {
        count_u16 = g.count_u16;
        slots = g.slots;
        missing = g.missing;
        received = g.received;
      })

next-ensure_inflight_frame :
    (s : H264Reassembler) (k n now t : ℕ) (fec : Bool)
    → (ensure_inflight_frame s k n now t fec).0.next_frame ≡ s.next_frame
unfolding reserve_frame reject_new_frame_for_budget
next-ensure_inflight_frame s k n now t fec = elim (Option-cases (lookup k s.inflight)) [
  | inr (f, p) ↦ ap (λ r. r.0.next_frame) (ensure_present s k n now t fec f p)
  | inl p ↦ elim (Option-cases (frame_payload_reservation n)) [
    | inl q ↦ ap (λ r. r.0.next_frame) (ensure_invalid s k n now t fec p q)
    | inr (r, q) ↦ elim (Bool-cases (fits_budget s n r)) [
      | inl e ↦ ap (λ r. r.0.next_frame) (ensure_reserved s k n now t fec r p q e)
      | inr e ↦ ap (λ r. r.0.next_frame) (ensure_refused s k n now t fec r p q e)
    ]
  ]
]

module _ (float : FloatTiming) (h : ℕ) (packet : MediaPacket) (now : ℕ) where
  place_ensured-SoundTo :
      (r : H264Reassembler × Bool)
      → NotBefore packet.frame_id r.0.next_frame
      → SoundTo h r.0
      → SoundTo h (place_ensured float r packet now)
  place_ensured-SoundTo (s, true) after b =
      place_found-SoundTo float h s packet now after b (lookup packet.frame_id s.inflight) refl
  place_ensured-SoundTo (s, false) after b = b

  parity_ensured-SoundTo :
      (parity : FecParity) (r : H264Reassembler × Bool)
      → NotBefore packet.frame_id r.0.next_frame
      → SoundTo h r.0
      → SoundTo h (parity_ensured float r packet parity now)
  parity_ensured-SoundTo parity (s, true) after b =
      parity_found-SoundTo float h s packet now after b (lookup packet.frame_id s.inflight) parity
        refl
  parity_ensured-SoundTo parity (s, false) after b = b

  module _ (s : H264Reassembler) (le : packet.frame_id ≤ h)
      (after : NotBefore packet.frame_id s.next_frame) (b : SoundTo h s) where
    pub accept_data_packet-SoundTo : SoundTo h (accept_data_packet float s packet now)
    unfolding accept_data_packet
    accept_data_packet-SoundTo =
        let fec : Bool = has_flag packet.flags flag_fec_protected in
        place_ensured-SoundTo
          (ensure_inflight_frame s packet.frame_id packet.packet_count now packet.timestamp_ms fec)
          (subst (NotBefore packet.frame_id)
            (sym (
              next-ensure_inflight_frame s packet.frame_id packet.packet_count now
                packet.timestamp_ms fec))
            after)
          (ensure_inflight_frame-SoundTo h s packet.frame_id packet.packet_count now
            packet.timestamp_ms fec le b)

    accept_parity-SoundTo :
        (parity : FecParity) → SoundTo h (accept_parity float s packet parity now)
    unfolding accept_parity
    accept_parity-SoundTo parity =
        parity_ensured-SoundTo parity
          (ensure_inflight_frame s packet.frame_id parity.data_packet_count now packet.timestamp_ms
            true)
          (subst (NotBefore packet.frame_id)
            (sym (
              next-ensure_inflight_frame s packet.frame_id parity.data_packet_count now
                packet.timestamp_ms true))
            after)
          (ensure_inflight_frame-SoundTo h s packet.frame_id parity.data_packet_count now
            packet.timestamp_ms true le b)

    reject_parity-SoundTo : SoundTo h (reject_parity float s packet.frame_id)
    unfolding reject_parity
    reject_parity-SoundTo =
        mark_invalid-SoundTo float h (count_bad_parity float s) packet.frame_id
          (lookup packet.frame_id s.inflight) b refl

    fec_decoded-SoundTo :
        (r : Result FecError FecParity) → SoundTo h (fec_decoded float s packet now r)
    fec_decoded-SoundTo (err e) = reject_parity-SoundTo
    fec_decoded-SoundTo (ok parity) =
        elim (Bool-cases (parity.data_packet_count == packet.packet_count)) [
          | inl p ↦ rw p (accept_parity-SoundTo parity)
          | inr p ↦ rw p reject_parity-SoundTo
        ]

    pub accept_fec_packet-SoundTo : SoundTo h (accept_fec_packet float s packet now)
    unfolding accept_fec_packet
    accept_fec_packet-SoundTo = fec_decoded-SoundTo (decode_owned packet.payload)
