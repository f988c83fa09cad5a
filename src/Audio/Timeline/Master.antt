-- ===== src/Audio/Timeline/Master.antt =====
-- When the timeline may be the master of the playout.
use agora_link.Prelude.{
  ℕ, ◌≤◌, ◌≡◌, refl, List, [], ◌∷◌, Bool, true, false, Option, none, some, arith,
}
use agora_link.Audio.Timeline.{
  AudioTimeline, new_timeline, observe_received_packet, submit_media, mark_discontinuity,
  mark_inactive,
}

pub data Event : Type 0 where
  received : ℕ → Event
  submitted : ℕ → ℕ → ℕ → Event
  discontinuity inactive : Event

unfoldable pub happen : AudioTimeline → Event → AudioTimeline
happen t (received timestamp_us) = observe_received_packet t timestamp_us
happen t (submitted timestamp_us media_frames padding) =
    submit_media t timestamp_us media_frames padding
happen t discontinuity = mark_discontinuity t
happen t inactive = mark_inactive t

unfoldable pub happen_all : AudioTimeline → List Event → AudioTimeline
happen_all t [] = t
happen_all t (e ∷ events) = happen_all (happen t e) events

-- A time that can be heard is known together with the one that was submitted, and is not after it.
abbrev NotAfter : Option ℕ → Option ℕ → Type 0
NotAfter none none = Unit
NotAfter (some a) (some s) = a ≤ s
NotAfter a s = ⊥

-- A valid timeline is anchored, and waits for no anchor.
abbrev Anchored : Bool → Bool → Option ℕ → Option ℕ → Type 0
Anchored false awaiting audible last = NotAfter audible last
Anchored true awaiting none last = ⊥
Anchored true awaiting (some a) last = (awaiting ≡ false) × NotAfter (some a) last

pub record IsAnchored (t : AudioTimeline) : Type 0 where
  pub times :
      Anchored t.snapshot.valid t.awaiting_reanchor t.snapshot.audible_media_timestamp_us
        t.snapshot.submitted_media_timestamp_us
  pub samples :
      t.snapshot.media_samples_audible_estimated_total ≤ t.snapshot.media_samples_submitted_total

unanchored : (valid awaiting : Bool) (a s : Option ℕ) → Anchored valid awaiting a s → NotAfter a s
unanchored false awaiting a s h = h
unanchored true awaiting none s h = absurd h
unanchored true awaiting (some a) s h = h.1

happen-IsAnchored : (t : AudioTimeline) (e : Event) → IsAnchored t → IsAnchored (happen t e)
unfolding happen observe_received_packet submit_media mark_discontinuity mark_inactive
happen-IsAnchored t (received timestamp_us) h = record { times = h.times; samples = h.samples }
happen-IsAnchored t (submitted timestamp_us media_frames padding) h = record {
  times = (refl, omega arith);
  samples = omega arith;
}
happen-IsAnchored t discontinuity h = record {
  times = unanchored _ _ _ _ h.times;
  samples = h.samples;
}
happen-IsAnchored t inactive h = record { times = unanchored _ _ _ _ h.times; samples = h.samples }

all-IsAnchored :
    (t : AudioTimeline) (events : List Event) → IsAnchored t → IsAnchored (happen_all t events)
unfolding happen_all
all-IsAnchored t [] h = h
all-IsAnchored t (e ∷ events) h = all-IsAnchored (happen t e) events (happen-IsAnchored t e h)

new-IsAnchored : (sample_rate : ℕ) → IsAnchored (new_timeline sample_rate)
unfolding new_timeline
new-IsAnchored sample_rate = record { times = tt; samples = omega arith }

-- After any events, a timeline that is valid awaits no anchor and knows the audible time, which is not
-- after the submitted one; and it never counts more samples as audible than were submitted.
pub happen_all-IsAnchored :
    (sample_rate : ℕ) (events : List Event)
    → IsAnchored (happen_all (new_timeline sample_rate) events)
happen_all-IsAnchored sample_rate events =
    all-IsAnchored (new_timeline sample_rate) events (new-IsAnchored sample_rate)
