-- ===== src/Shutdown.antt =====
-- The shutdown of rust-native/agoralink_media/src/shutdown.rs: why a run stops, and in which state of
-- its life it is.
pub mod Coordinator
use agora_link.Prelude.{ℕ, Bool, true, false, Option, none, some, ◌==◌, if◌then◌else◌}

pub data StopReason : Type 0 where
  duration ctrl_c window_closed receiver_readiness_timeout profile_transition_failed qsv_timeout
        internal_error local_stop peer_closed peer_timeout fatal_error startup_failure :
      StopReason

-- `reason as u8`
abbrev pub reason_code_of : StopReason → ℕ
reason_code_of duration = 1
reason_code_of ctrl_c = 2
reason_code_of window_closed = 3
reason_code_of receiver_readiness_timeout = 4
reason_code_of profile_transition_failed = 5
reason_code_of qsv_timeout = 6
reason_code_of internal_error = 7
reason_code_of local_stop = 8
reason_code_of peer_closed = 9
reason_code_of peer_timeout = 10
reason_code_of fatal_error = 11
reason_code_of startup_failure = 12

-- `StopReason::from_code`
abbrev pub reason_from_code : ℕ → Option StopReason
reason_from_code code =
    if code == 1
    then some duration
    else if code == 2
    then some ctrl_c
    else if code == 3
    then some window_closed
    else if code == 4
    then some receiver_readiness_timeout
    else if code == 5
    then some profile_transition_failed
    else if code == 6
    then some qsv_timeout
    else if code == 7
    then some internal_error
    else if code == 8
    then some local_stop
    else if code == 9
    then some peer_closed
    else if code == 10
    then some peer_timeout
    else if code == 11
    then some fatal_error
    else if code == 12
    then some startup_failure
    else none

abbrev should_notify_peer : StopReason → Bool
should_notify_peer peer_closed = false
should_notify_peer peer_timeout = false
should_notify_peer startup_failure = false
should_notify_peer r = true

pub data LifecycleState : Type 0 where
  starting running stopping stopped failed failed_cleanup : LifecycleState

-- `state as u8`
abbrev pub state_code : LifecycleState → ℕ
state_code starting = 0
state_code running = 1
state_code stopping = 2
state_code stopped = 3
state_code failed = 4
state_code failed_cleanup = 5

-- `LifecycleState::from_code`
abbrev pub state_from_code : ℕ → LifecycleState
state_from_code code =
    if code == 1
    then running
    else if code == 2
    then stopping
    else if code == 3
    then stopped
    else if code == 4
    then failed
    else if code == 5
    then failed_cleanup
    else starting
