-- ===== src/Control/Feedback/Tracker/Newest.antt =====
-- What the tracker holds after a row of datagrams, and after one that it refuses.
use agora_link.Prelude.{
  ℕ, ◌≤◌, ◌≡◌, refl, List, [], ◌∷◌, All, Bool, true, false, not, ◌==◌, count_up, leb_false→lt,
  Option, none, some, Result, ok, err, if◌then◌else◌, arith,
}
use mathlib.Core.List.{Memᴰ}
use agora_link.Control.Feedback.{CapabilityFeedback, FeedbackError, decode}
use agora_link.Control.Feedback.Tracker.{
  CapabilityFeedbackTracker, ObserveError, observe_feedback, admit, observe_decoded,
  observe_feedback_all, reset_for_session, is_stale,
}

-- The feedback of a session among those that came, the last one first.
abbrev of_session :
    ℕ → Result FeedbackError CapabilityFeedback → List CapabilityFeedback → List CapabilityFeedback
of_session session (err e) came = came
of_session session (ok f) came = if f.session_id == session then f ∷ came else came

abbrev pub came_after : ℕ → List (List ℕ × ℕ) → List CapabilityFeedback → List CapabilityFeedback
came_after session [] came = came
came_after session ((bytes, now) ∷ arrivals) came =
    came_after session arrivals (of_session session (decode bytes) came)

-- The held feedback is one of those that came, and none of them has a larger sequence number.
abbrev pub IsNewest : Option (CapabilityFeedback × ℕ) → List CapabilityFeedback → Type 0
IsNewest none came = came ≡ []
IsNewest (some (g, _)) came =
    Memᴰ g came × All (λ f. f.feedback_sequence ≤ g.feedback_sequence) came

All-raise :
    (n m : ℕ) (came : List CapabilityFeedback)
    → n ≤ m
    → All (λ f. f.feedback_sequence ≤ n) came
    → All (λ f. f.feedback_sequence ≤ m) came
All-raise n m [] le h = tt
All-raise n m (f ∷ came) le h = (omega (arith, h.0), All-raise n m came le h.1)

-- A feedback that is not stale is the newest.
fresh-IsNewest :
    (held : Option (CapabilityFeedback × ℕ)) (f : CapabilityFeedback) (now : ℕ)
    (came : List CapabilityFeedback)
    → is_stale held f ≡ false
    → IsNewest held came
    → IsNewest (some (f, now)) (f ∷ came)
fresh-IsNewest none f now came fresh h = rw (h) (Memᴰ.head refl, (omega arith, tt))
fresh-IsNewest (some (g, _)) f now came fresh h = (
  Memᴰ.head refl,
  (
    omega arith,
    All-raise g.feedback_sequence f.feedback_sequence came
        (omega (arith, leb_false→lt f.feedback_sequence g.feedback_sequence fresh)) h.1,
  ),
)

stale-IsNewest :
    (held : Option (CapabilityFeedback × ℕ)) (f : CapabilityFeedback)
    (came : List CapabilityFeedback)
    → is_stale held f ≡ true
    → IsNewest held came
    → IsNewest held (f ∷ came)
stale-IsNewest none f came stale h = cc
stale-IsNewest (some (g, _)) f came stale h = (Memᴰ.tail h.0, (ground (arith, stale), h.1))

module _ (t : CapabilityFeedbackTracker) (f : CapabilityFeedback) (now : ℕ)
    (came : List CapabilityFeedback) where
  admit-IsNewest :
      (other stale : Bool)
      → is_stale t.latest f ≡ stale
      → IsNewest t.latest came
      → IsNewest (admit t f now (not other) stale).0.latest (if other then f ∷ came else came)
  admit-IsNewest false stale e h = h
  admit-IsNewest true true e h = stale-IsNewest t.latest f came e h
  admit-IsNewest true false e h = fresh-IsNewest t.latest f now came e h

observe_decoded-IsNewest :
    (t : CapabilityFeedbackTracker) (r : Result FeedbackError CapabilityFeedback) (session now : ℕ)
    (came : List CapabilityFeedback)
    → IsNewest t.latest came
    → IsNewest (observe_decoded t r session now).0.latest (of_session session r came)
observe_decoded-IsNewest t (err e) session now came h = h
observe_decoded-IsNewest t (ok f) session now came h =
    admit-IsNewest t f now came (f.session_id == session) (is_stale t.latest f) refl h

arrivals-IsNewest :
    (t : CapabilityFeedbackTracker) (session : ℕ) (arrivals : List (List ℕ × ℕ))
    (came : List CapabilityFeedback)
    → IsNewest t.latest came
    → IsNewest (observe_feedback_all t session arrivals).latest (came_after session arrivals came)
unfolding observe_feedback observe_feedback_all
arrivals-IsNewest t session [] came h = h
arrivals-IsNewest t session ((bytes, now) ∷ arrivals) came h =
    arrivals-IsNewest (observe_feedback t bytes session now).0 session arrivals
      (of_session session (decode bytes) came)
      (observe_decoded-IsNewest t (decode bytes) session now came h)

-- A tracker that starts a session and observes a row of datagrams, some of them malformed, of other
-- sessions, repeated or out of order, holds nothing if no feedback of the session came; else it holds
-- one that came, and none that came has a larger sequence number.
pub observe_feedback_all-IsNewest :
    (t : CapabilityFeedbackTracker) (session : ℕ) (arrivals : List (List ℕ × ℕ))
    → IsNewest
        (observe_feedback_all (reset_for_session t) session arrivals).latest
        (came_after session arrivals [])
unfolding reset_for_session
observe_feedback_all-IsNewest t session arrivals =
    arrivals-IsNewest (reset_for_session t) session arrivals [] refl

-- What a refused datagram leaves.
abbrev pub IsRefused : CapabilityFeedbackTracker → CapabilityFeedbackTracker → Type 0
IsRefused t u =
    (u.latest ≡ t.latest)
    × (u.last_profile_eligible_feedback_at ≡ t.last_profile_eligible_feedback_at)
    × (u.transition_grace_until ≡ t.transition_grace_until)
    × (u.stale_reported ≡ t.stale_reported)
    × (u.stats.received ≡ t.stats.received)
    × (u.stats.invalid ≡ count_up t.stats.invalid)

admit-IsRefused :
    (t : CapabilityFeedbackTracker) (f : CapabilityFeedback) (now : ℕ) (other stale : Bool)
    (e : ObserveError)
    → (admit t f now other stale).1 ≡ err e
    → IsRefused t (admit t f now other stale).0
admit-IsRefused t f now true stale e h = (refl, refl, refl, refl, refl, refl)
admit-IsRefused t f now false true e h = (refl, refl, refl, refl, refl, refl)
admit-IsRefused t f now false false e h = cc

observe_decoded-IsRefused :
    (t : CapabilityFeedbackTracker) (r : Result FeedbackError CapabilityFeedback) (session now : ℕ)
    (e : ObserveError)
    → (observe_decoded t r session now).1 ≡ err e
    → IsRefused t (observe_decoded t r session now).0
observe_decoded-IsRefused t (err x) session now e h = (refl, refl, refl, refl, refl, refl)
observe_decoded-IsRefused t (ok f) session now e h =
    admit-IsRefused t f now (not (f.session_id == session)) (is_stale t.latest f) e h

-- A datagram that the tracker refuses, for whichever reason, changes neither the held feedback nor
-- its time, the transition grace, the stale report or the count of the received, and is counted once
-- as invalid.
pub observe_feedback-error :
    (t : CapabilityFeedbackTracker) (bytes : List ℕ) (session now : ℕ) (e : ObserveError)
    → (observe_feedback t bytes session now).1 ≡ err e
    → IsRefused t (observe_feedback t bytes session now).0
unfolding observe_feedback
observe_feedback-error t bytes session now e h =
    observe_decoded-IsRefused t (decode bytes) session now e h
