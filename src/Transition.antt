-- ===== src/Transition.antt =====
-- The change of the video profile, rust-native/agoralink_media/src/profile_transition.rs: the phases
-- and the deadlines. Instants and durations are microseconds on the monotonic clock.
pub mod Readiness
pub mod Sender
pub mod Receiver
pub mod Protocol
use agora_link.Prelude.{ℕ, Bool, true, false, ◌&&◌, ◌==◌, Option, none, some, count_up}
use agora_link.Control.Profile.Change.{ProfileChange}
use agora_link.Control.Profile.Ack.{ProfileAck}

abbrev pub control_ack_deadline : ℕ
control_ack_deadline = 2500000

abbrev pub control_retry_interval : ℕ
control_retry_interval = 250000

abbrev pub control_max_attempts : ℕ
control_max_attempts = 10

abbrev pub receiver_pending_deadline : ℕ
receiver_pending_deadline = 3000000

abbrev pub receiver_first_idr_deadline : ℕ
receiver_first_idr_deadline = 2500000

abbrev pub receiver_first_render_deadline : ℕ
receiver_first_render_deadline = 1500000

abbrev pub receiver_settle_deadline : ℕ
receiver_settle_deadline = 2500000

abbrev pub receiver_readiness_deadline : ℕ
receiver_readiness_deadline = 9000000

abbrev pub receiver_transition_hard_deadline : ℕ
receiver_transition_hard_deadline = 8000000

abbrev pub receiver_max_settle_restarts : ℕ
receiver_max_settle_restarts = 1

abbrev pub sender_transition_total_deadline : ℕ
sender_transition_total_deadline = 12000000

-- Why a transition failed, in place of the source's strings.
pub data FailureReason : Type 0 where
  receiver_transition_overall_timeout receiver_settle_recovery_limit receiver_first_idr_timeout
        receiver_first_render_timeout receiver_settle_timeout receiver_readiness_timeout
        profile_control_rejected profile_control_ack_timeout profile_transition_total_timeout :
      FailureReason

pub data SenderTransitionPhase : Type 0 where
  idle control_pending await_control_ack activate_new_session await_receiver_readiness committed
        rollback failed :
      SenderTransitionPhase

pub data ReceiverTransitionPhase : Type 0 where
  receiver_idle await_new_session_data new_session_activated await_first_idr
        await_first_rendered_frame settling receiver_committed receiver_failed :
      ReceiverTransitionPhase

record TransitionFailureTelemetry : Type 0 where
  pub timeout_count : ℕ
  pub failure_count : ℕ
  pub last_failure_reason : Option FailureReason
  pub last_failure_stage : Option ReceiverTransitionPhase

unfoldable clear_current : TransitionFailureTelemetry → TransitionFailureTelemetry
clear_current t = record t { last_failure_reason = none; last_failure_stage = none }

abbrev count_timeout : Bool → ℕ → ℕ
count_timeout true n = count_up n
count_timeout false n = n

unfoldable record_failure :
    TransitionFailureTelemetry
    → ReceiverTransitionPhase
    → FailureReason
    → Bool
    → TransitionFailureTelemetry
record_failure t stage reason timed_out = record {
  timeout_count = count_timeout timed_out t.timeout_count;
  failure_count = count_up t.failure_count;
  last_failure_reason = some reason;
  last_failure_stage = some stage;
}

pub record ProfileControlKey : Type 0 where
  pub old_session_id : ℕ
  pub new_session_id : ℕ
  pub change_sequence : ℕ
  pub profile_generation : ℕ

-- `ProfileControlKey::from_change`
abbrev pub from_change : ProfileChange → ProfileControlKey
from_change change = record {
  old_session_id = change.old_session_id;
  new_session_id = change.new_session_id;
  change_sequence = change.change_sequence;
  profile_generation = change.profile_generation;
}

-- `==` on keys
abbrev pub same_key : ProfileControlKey → ProfileControlKey → Bool
same_key k l =
    k.old_session_id == l.old_session_id
    && k.new_session_id == l.new_session_id
    && k.change_sequence == l.change_sequence
    && k.profile_generation == l.profile_generation

abbrev pub matches_ack : ProfileControlKey → ProfileAck → Bool
matches_ack k a =
    k.old_session_id == a.old_session_id
    && k.new_session_id == a.new_session_id
    && k.change_sequence == a.change_sequence
    && k.profile_generation == a.profile_generation
