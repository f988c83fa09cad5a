-- ===== src/Control/Feedback/Tracker.antt =====
-- `CapabilityFeedbackTracker`: the newest feedback of the current session and when the peer was heard.
-- Instants are microseconds on the monotonic clock.
pub mod Newest
use agora_link.Prelude.{
  ℕ, ◌+◌, ◌-◌, ◌*◌, ◌^◌, max, count_up, List, [], ◌∷◌, Bool, true, false, not, leb, ltb, ◌==◌,
  if◌then◌else◌, Option, none, some, Result, ok, err,
}
use agora_link.Control.Feedback.{CapabilityFeedback, FeedbackError, decode}

pub record FeedbackTrackerStats : Type 0 where
  pub received : ℕ
  pub invalid : ℕ
  pub stale_events : ℕ

pub record CapabilityFeedbackTracker : Type 0 where
  pub latest : Option (CapabilityFeedback × ℕ)
  pub last_any_valid_peer_control_at : Option ℕ
  pub last_any_valid_capability_feedback_at : Option ℕ
  pub last_profile_eligible_feedback_at : Option ℕ
  pub transition_grace_until : Option ℕ
  pub stats : FeedbackTrackerStats
  pub stale_reported : Bool

abbrev pub new_tracker : CapabilityFeedbackTracker
new_tracker = record {
  latest = none;
  last_any_valid_peer_control_at = none;
  last_any_valid_capability_feedback_at = none;
  last_profile_eligible_feedback_at = none;
  transition_grace_until = none;
  stats = record { received = 0; invalid = 0; stale_events = 0 };
  stale_reported = false;
}

pub data ObserveError : Type 0 where
  undecoded : FeedbackError → ObserveError
  another_session stale_sequence : ObserveError

abbrev count_refused : CapabilityFeedbackTracker → CapabilityFeedbackTracker
count_refused t = record t { stats = record t.stats { invalid = count_up t.stats.invalid } }

-- The peer is heard.
abbrev pub heard : CapabilityFeedbackTracker → ℕ → CapabilityFeedbackTracker
heard t now = record t {
  last_any_valid_peer_control_at = some now;
  last_any_valid_capability_feedback_at = some now;
}

abbrev pub is_stale : Option (CapabilityFeedback × ℕ) → CapabilityFeedback → Bool
is_stale none feedback = false
is_stale (some (current, _)) feedback = leb feedback.feedback_sequence current.feedback_sequence

abbrev pub keep : CapabilityFeedbackTracker → CapabilityFeedback → ℕ → CapabilityFeedbackTracker
keep t feedback now = record t {
  latest = some (feedback, now);
  last_profile_eligible_feedback_at = some now;
  stats = record t.stats { received = count_up t.stats.received };
  stale_reported = false;
}

-- The answer to a feedback, by the tests on its session and on its sequence number.
abbrev pub admit :
    CapabilityFeedbackTracker
    → CapabilityFeedback
    → ℕ
    → Bool
    → Bool
    → CapabilityFeedbackTracker × Result ObserveError Bool
admit t feedback now true stale = (count_refused (heard t now), err another_session)
admit t feedback now false true = (count_refused (heard t now), err stale_sequence)
admit t feedback now false false = (keep (heard t now) feedback now, ok true)

abbrev pub observe_decoded :
    CapabilityFeedbackTracker
    → Result FeedbackError CapabilityFeedback
    → ℕ
    → ℕ
    → CapabilityFeedbackTracker × Result ObserveError Bool
observe_decoded t (err e) expected_session_id now = (count_refused t, err (undecoded e))
observe_decoded t (ok feedback) expected_session_id now =
    admit t feedback now (not (feedback.session_id == expected_session_id))
      (is_stale t.latest feedback)

unfoldable pub observe_feedback :
    CapabilityFeedbackTracker
    → List ℕ
    → ℕ
    → ℕ
    → CapabilityFeedbackTracker × Result ObserveError Bool
observe_feedback t bytes expected_session_id now =
    observe_decoded t (decode bytes) expected_session_id now

unfoldable pub observe_feedback_all :
    CapabilityFeedbackTracker → ℕ → List (List ℕ × ℕ) → CapabilityFeedbackTracker
observe_feedback_all t expected_session_id [] = t
observe_feedback_all t expected_session_id ((bytes, now) ∷ arrivals) =
    observe_feedback_all (observe_feedback t bytes expected_session_id now).0 expected_session_id
      arrivals

-- `ShutdownConfig::default().peer_stale_after`: two seconds.
abbrev peer_stale_after : ℕ
peer_stale_after = 2000000

abbrev report_stale : CapabilityFeedbackTracker → CapabilityFeedbackTracker
report_stale t = if t.stale_reported then t else record t {
  stats = record t.stats { stale_events = count_up t.stats.stale_events };
  stale_reported = true;
}

abbrev fresh_of :
    CapabilityFeedbackTracker
    → Option (CapabilityFeedback × ℕ)
    → ℕ
    → CapabilityFeedbackTracker × Option CapabilityFeedback
fresh_of t none now = (t, none)
fresh_of t (some (feedback, received_at)) now =
    if ltb peer_stale_after (now - received_at) then (report_stale t, none) else (t, some feedback)

unfoldable latest_fresh :
    CapabilityFeedbackTracker → ℕ → CapabilityFeedbackTracker × Option CapabilityFeedback
latest_fresh t now = fresh_of t t.latest now

unfoldable observe_valid_peer_control : CapabilityFeedbackTracker → ℕ → CapabilityFeedbackTracker
observe_valid_peer_control t now = record t { last_any_valid_peer_control_at = some now }

-- The age of the later of two instants.
abbrev age_of : Option ℕ → Option ℕ → ℕ → Option ℕ
age_of none none now = none
age_of none (some b) now = some (now - b)
age_of (some a) none now = some (now - a)
age_of (some a) (some b) now = some (now - max a b)

unfoldable peer_activity_age : CapabilityFeedbackTracker → ℕ → Option ℕ
peer_activity_age t now =
    age_of t.last_any_valid_peer_control_at t.last_any_valid_capability_feedback_at now

unfoldable begin_transition_grace : CapabilityFeedbackTracker → ℕ → CapabilityFeedbackTracker
begin_transition_grace t deadline = record t { transition_grace_until = some deadline }

unfoldable clear_transition_grace : CapabilityFeedbackTracker → CapabilityFeedbackTracker
clear_transition_grace t = record t { transition_grace_until = none }

abbrev before_deadline : Option ℕ → ℕ → Bool
before_deadline none now = false
before_deadline (some deadline) now = ltb now deadline

unfoldable transition_grace_active : CapabilityFeedbackTracker → ℕ → Bool
transition_grace_active t now = before_deadline t.transition_grace_until now

unfoldable pub reset_for_session : CapabilityFeedbackTracker → CapabilityFeedbackTracker
reset_for_session t = record t {
  latest = none;
  last_profile_eligible_feedback_at = none;
  stale_reported = false;
}
