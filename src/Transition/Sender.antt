-- ===== src/Transition/Sender.antt =====
-- `SenderProfileTransition`: the sender announces the change until it is acknowledged, activates the
-- new session, and waits for the receiver's readiness.
pub mod Phases
pub mod Steps
pub mod Deadlines
pub mod Endings
use agora_link.Prelude.{
  ℕ, ◌+◌, Bool, true, false, not, ◌&&◌, leb, ltb, if◌then◌else◌, count_up32, Option, none, some,
  Result, ok, err,
}
use agora_link.Control.Profile.Change.{ProfileChange}
use agora_link.Control.Profile.Ack.{ProfileAck, is_accepted}
use agora_link.Transition.{
  SenderTransitionPhase, idle, control_pending, await_control_ack, activate_new_session,
  await_receiver_readiness, committed, rollback, failed, FailureReason, receiver_readiness_timeout,
  profile_control_rejected, profile_control_ack_timeout, profile_transition_total_timeout,
  control_ack_deadline, control_retry_interval, control_max_attempts, receiver_readiness_deadline,
  sender_transition_total_deadline, ProfileControlKey, from_change, matches_ack,
}

pub record SenderProfileTransition : Type 0 where
  pub change : ProfileChange
  pub phase : SenderTransitionPhase
  pub started_at : ℕ
  pub ack_deadline : ℕ
  pub total_deadline : ℕ
  pub readiness_deadline : Option ℕ
  pub next_retry_at : ℕ
  pub attempts : ℕ
  pub last_control_sent_at : Option ℕ
  pub ack_received_at : Option ℕ
  pub failure_reason : Option FailureReason

pub data SenderAckDecision : Type 0 where
  ack_accepted : SenderAckDecision
  ack_rejected : ℕ → SenderAckDecision
  unmatched : SenderAckDecision

unfoldable pub prepared : ProfileChange → ℕ → SenderProfileTransition
prepared change now = record {
  change = change;
  phase = control_pending;
  started_at = now;
  ack_deadline = now + control_ack_deadline;
  total_deadline = now + sender_transition_total_deadline;
  readiness_deadline = none;
  next_retry_at = now;
  attempts = 0;
  last_control_sent_at = none;
  ack_received_at = none;
  failure_reason = none;
}

abbrev pub key : SenderProfileTransition → ProfileControlKey
key s = from_change s.change

-- `matches!(self.phase, ControlPending | AwaitControlAck)`
abbrev pub announces : SenderTransitionPhase → Bool
announces control_pending = true
announces await_control_ack = true
announces phase = false

unfoldable pub should_send_control : SenderProfileTransition → ℕ → Bool
should_send_control s now =
    announces s.phase
    && ltb s.attempts control_max_attempts
    && leb now s.ack_deadline
    && leb s.next_retry_at now

unfoldable pub record_control_sent : SenderProfileTransition → ℕ → SenderProfileTransition
record_control_sent s now = record s {
  attempts = count_up32 s.attempts;
  last_control_sent_at = some now;
  phase = await_control_ack;
  next_retry_at = now + control_retry_interval;
}

-- A transition that ends before its acknowledgement is rolled back, one that ends later has failed.
abbrev pub ended_phase : Option ℕ → SenderTransitionPhase
ended_phase none = rollback
ended_phase (some at) = failed

unfoldable pub cancel : SenderProfileTransition → FailureReason → SenderProfileTransition
cancel s reason = record s { phase = ended_phase s.ack_received_at; failure_reason = some reason }

unfoldable pub observe_ack :
    SenderProfileTransition → ProfileAck → ℕ → SenderProfileTransition × SenderAckDecision
observe_ack s a now =
    if not (matches_ack (key s) a)
    then (s, unmatched)
    else if not (announces s.phase)
    then (s, unmatched)
    else if not (is_accepted a)
    then (cancel s profile_control_rejected, ack_rejected a.reason_code)
    else (record s { ack_received_at = some now; phase = activate_new_session }, ack_accepted)

pub data PhaseError : Type 0 where
  cannot_activate cannot_commit : PhaseError

abbrev pub activate_in :
    SenderTransitionPhase → SenderProfileTransition → ℕ → Result PhaseError SenderProfileTransition
activate_in activate_new_session s now = ok (record s {
  phase = await_receiver_readiness;
  readiness_deadline = some (now + receiver_readiness_deadline);
})
activate_in phase s now = err cannot_activate

unfoldable pub activate : SenderProfileTransition → ℕ → Result PhaseError SenderProfileTransition
activate s now = activate_in s.phase s now

abbrev pub commit_in :
    SenderTransitionPhase → SenderProfileTransition → Result PhaseError SenderProfileTransition
commit_in await_receiver_readiness s = ok (record s { phase = committed })
commit_in phase s = err cannot_commit

unfoldable pub commit : SenderProfileTransition → Result PhaseError SenderProfileTransition
commit s = commit_in s.phase s

abbrev pub passed_by : Option ℕ → ℕ → Bool
passed_by none now = false
passed_by (some deadline) now = leb deadline now

abbrev pub awaits_readiness : SenderTransitionPhase → Bool
awaits_readiness await_receiver_readiness = true
awaits_readiness phase = false

-- `matches!(self.phase, Committed | Rollback | Failed)`
abbrev pub is_over : SenderTransitionPhase → Bool
is_over committed = true
is_over rollback = true
is_over failed = true
is_over phase = false

abbrev pub missed_deadline : SenderProfileTransition → ℕ → Option FailureReason
missed_deadline s now =
    if announces s.phase && leb s.ack_deadline now
    then some profile_control_ack_timeout
    else if awaits_readiness s.phase && passed_by s.readiness_deadline now
    then some receiver_readiness_timeout
    else if not (is_over s.phase) && leb s.total_deadline now
    then some profile_transition_total_timeout
    else none

abbrev pub end_with : SenderProfileTransition → Option FailureReason → SenderProfileTransition
end_with s none = s
end_with s (some reason) = record s {
  phase = ended_phase s.ack_received_at;
  failure_reason = some reason;
}

unfoldable pub check_deadline :
    SenderProfileTransition → ℕ → SenderProfileTransition × Option FailureReason
check_deadline s now = (end_with s (missed_deadline s now), missed_deadline s now)
