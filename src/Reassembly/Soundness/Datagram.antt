-- ===== src/Reassembly/Soundness/Datagram.antt =====
-- `accept_datagram` keeps the invariant of the reassembler and always answers.
use mathlib.Core.Path.{subst}
use agora_link.Prelude.{
  ℕ, ◌≡◌, ◌≢◌, ◌≤◌, sym, Option, none, some, false, List, refl, All, Result, ok, err,
  guarded-passed, ok-injective, arith,
}
use agora_link.Bytes.{IsByte}
use agora_link.Wire.Media.{MediaPacket, MediaError, decode}
use agora_link.Wire.Media.Canonical.{encode-decode}
use agora_link.Repair.{u64_max}
use agora_link.Reassembly.{
  H264Reassembler, EncodedFrame, FloatTiming, ReassemblyConfig, new, new_with,
}
use agora_link.Map.{total}
use agora_link.Reassembly.Arrival.{accept_packet}
use agora_link.Reassembly.Release.{
  take_ready, deliver, datagram_decoded, count_bytes, accept_datagram,
}
use agora_link.Reassembly.Soundness.Stream.{IsSound, accept_packet-IsSound}
use agora_link.Reassembly.Soundness.Gate.{take_ready-Sound}

-- The loop has an answer: the result is an error or a list of frames.
abbrev Answered : H264Reassembler × Result MediaError (Option (List EncodedFrame)) → Type 0
Answered r = IsSound r.0 × (r.1 ≢ ok none)

some-ne-none :
    {fs : List EncodedFrame}
    → ◌≢◌ {A = Result MediaError (Option (List EncodedFrame))} (ok (some fs)) (ok none)
some-ne-none e = cc

err-ne-none :
    {x : MediaError} → ◌≢◌ {A = Result MediaError (Option (List EncodedFrame))} (err x) (ok none)
err-ne-none e = cc

module _ (float : FloatTiming) (s : H264Reassembler) (now : ℕ) where
  deliver-Answered : IsSound s → Answered (deliver s (take_ready float s now false))
  deliver-Answered b =
      let ((s', frames), e, sound) = take_ready-Sound float s now false b in
      subst (λ r. Answered (deliver s r)) (sym e) (sound, some-ne-none)

decoded-Answered :
    (float : FloatTiming) (s : H264Reassembler) (now : ℕ) (r : Result MediaError MediaPacket)
    → ((p : MediaPacket) → r ≡ ok p → p.frame_id ≤ u64_max)
    → IsSound s
    → Answered (datagram_decoded float s now r)
decoded-Answered float s now (err e) typed (h, b) = ((h, b), err-ne-none)
decoded-Answered float s now (ok p) typed b =
    deliver-Answered float (accept_packet float s p now) now
      (accept_packet-IsSound float s p now (typed p refl) b)

-- Any datagram of bytes leaves a sound reassembler sound, and is answered by an error or by a list of
-- frames: the loop that releases frames ends.
pub accept_datagram-Sound :
    (float : FloatTiming) (s : H264Reassembler) (datagram : List ℕ) (now : ℕ)
    → All IsByte datagram
    → IsSound s
    → IsSound (accept_datagram float s datagram now).0
      × ((accept_datagram float s datagram now).1 ≢ ok none)
unfolding accept_datagram
accept_datagram-Sound float s datagram now bytes b =
    decoded-Answered float (count_bytes float s datagram) now (decode datagram)
      (λ p e. omega (arith, (encode-decode datagram p bytes e).0.frame_id_u64)) b

new_with-IsSound :
    (float : FloatTiming) (config : ReassemblyConfig) → IsSound (new_with float config)
unfolding new_with total
new_with-IsSound float config = (
  0,
  record {
    real = omega arith;
    budget = record {
      distinct = tt;
      slots_eq = refl;
      bytes_eq = refl;
      slots_max = omega arith;
      bytes_max = omega arith;
      frames_max = omega arith;
    };
    slotted = tt;
    in_flight = tt;
    waiting = tt;
    skips = tt;
    gate = refl;
    highest_eq = refl;
  },
)

new-guarded :
    (float : FloatTiming) (config : ReassemblyConfig) (s : H264Reassembler)
    → new float config ≡ ok s
    → new_with float config ≡ s
unfolding new
new-guarded float config s e =
    let (passed, h) = guarded-passed _ (ok (new_with float config)) e in ok-injective h

-- A reassembler that `new` returns is sound.
pub new-IsSound :
    (float : FloatTiming) (config : ReassemblyConfig) (s : H264Reassembler)
    → new float config ≡ ok s
    → IsSound s
new-IsSound float config s e =
    subst IsSound (new-guarded float config s e) (new_with-IsSound float config)
