-- ===== src/Shutdown/Coordinator.antt =====
-- `CancellationToken` and `ShutdownCoordinator`. Threads share three atomic cells. What one thread does
-- between two accesses to a cell is a turn; the loops of `mark_failed` and `begin_cleanup` go round once
-- a turn, with the lifecycle that they loaded, which other threads may have changed since.
pub mod Once
use agora_link.Prelude.{ℕ, Bool, true, false, ◌==◌, if◌then◌else◌, Option, List, [], ◌∷◌}
use agora_link.Shutdown.{
  StopReason, ctrl_c, LifecycleState, starting, running, stopping, stopped, failed, failed_cleanup,
  reason_code_of, reason_from_code, state_code, state_from_code,
}

-- `AtomicU8::compare_exchange`: the cell after it, and whether it was the expected value.
abbrev pub compare_exchange : ℕ → ℕ → ℕ → ℕ × Bool
compare_exchange cell expected new = if cell == expected then (new, true) else (cell, false)

abbrev reason_none : ℕ
reason_none = 0

pub record CancellationToken : Type 0 where
  pub cancelled : Bool
  pub reason : ℕ

abbrev new_token : CancellationToken
new_token = record { cancelled = false; reason = reason_none }

unfoldable pub cancel_token : CancellationToken → StopReason → CancellationToken × Bool
cancel_token t reason =
    let exchanged = compare_exchange t.reason reason_none (reason_code_of reason) in
    (record { cancelled = true; reason = exchanged.0 }, exchanged.1)

-- A request by Ctrl-C cancels the token when it is looked at.
abbrev noticed : CancellationToken → Bool → CancellationToken
noticed t false = t
noticed t true = (cancel_token t ctrl_c).0

unfoldable pub is_cancelled : CancellationToken → Bool → CancellationToken × Bool
is_cancelled t ctrl_c_requested =
    (noticed t ctrl_c_requested, (noticed t ctrl_c_requested).cancelled)

unfoldable pub token_reason : CancellationToken → Bool → CancellationToken × Option StopReason
token_reason t ctrl_c_requested =
    (noticed t ctrl_c_requested, reason_from_code (noticed t ctrl_c_requested).reason)

pub record ShutdownCoordinator : Type 0 where
  pub token : CancellationToken
  pub lifecycle : ℕ

abbrev pub new_coordinator : ShutdownCoordinator
new_coordinator = record { token = new_token; lifecycle = state_code starting }

unfoldable pub request_stop : ShutdownCoordinator → StopReason → ShutdownCoordinator × Bool
request_stop c reason =
    (record c { token = (cancel_token c.token reason).0 }, (cancel_token c.token reason).1)

unfoldable pub mark_running : ShutdownCoordinator → ShutdownCoordinator × Bool
mark_running c =
    let exchanged = compare_exchange c.lifecycle (state_code starting) (state_code running) in
    (record c { lifecycle = exchanged.0 }, exchanged.1)

-- How a turn of a loop ends.
pub data LoopTurn : Type 0 where
  returns : Bool → LoopTurn
  retries : LoopTurn

abbrev pub turn_of : Bool → LoopTurn
turn_of true = returns true
turn_of false = retries

abbrev exchange_to :
    LifecycleState → LifecycleState → ShutdownCoordinator → ShutdownCoordinator × LoopTurn
exchange_to loaded new c =
    let exchanged = compare_exchange c.lifecycle (state_code loaded) (state_code new) in
    (record c { lifecycle = exchanged.0 }, turn_of exchanged.1)

abbrev pub fail_from : LifecycleState → ShutdownCoordinator → ShutdownCoordinator × LoopTurn
fail_from starting c = exchange_to starting failed c
fail_from running c = exchange_to running failed c
fail_from state c = (c, returns false)

-- One turn of the loop of `mark_failed`.
unfoldable pub mark_failed_turn : ShutdownCoordinator → ℕ → ShutdownCoordinator × LoopTurn
mark_failed_turn c loaded = fail_from (state_from_code loaded) c

abbrev pub clean_from : LifecycleState → ShutdownCoordinator → ShutdownCoordinator × LoopTurn
clean_from stopping c = (c, returns false)
clean_from stopped c = (c, returns false)
clean_from failed_cleanup c = (c, returns false)
clean_from state c = exchange_to state stopping c

-- One turn of the loop of `begin_cleanup`.
unfoldable pub begin_cleanup_turn : ShutdownCoordinator → ℕ → ShutdownCoordinator × LoopTurn
begin_cleanup_turn c loaded = clean_from (state_from_code loaded) c

unfoldable pub finish_cleanup : ShutdownCoordinator → Bool → ShutdownCoordinator
finish_cleanup c all_workers_stopped = record c {
  lifecycle = state_code (if all_workers_stopped then stopped else failed_cleanup);
}

abbrev pub state : ShutdownCoordinator → LifecycleState
state c = state_from_code c.lifecycle

-- `looks` is a turn of `is_cancelled` or `reason`, with whether Ctrl-C was requested by then.
pub data ThreadTurn : Type 0 where
  stops : StopReason → ThreadTurn
  looks : Bool → ThreadTurn
  runs : ThreadTurn
  fails : ℕ → ThreadTurn
  cleans : ℕ → ThreadTurn
  finishes : Bool → ThreadTurn

unfoldable pub take_turn : ShutdownCoordinator → ThreadTurn → ShutdownCoordinator
take_turn c (stops reason) = (request_stop c reason).0
take_turn c (looks ctrl_c_requested) = record c {
  token = (is_cancelled c.token ctrl_c_requested).0;
}
take_turn c runs = (mark_running c).0
take_turn c (fails loaded) = (mark_failed_turn c loaded).0
take_turn c (cleans loaded) = (begin_cleanup_turn c loaded).0
take_turn c (finishes all) = finish_cleanup c all

unfoldable pub take_turns : ShutdownCoordinator → List ThreadTurn → ShutdownCoordinator
take_turns c [] = c
take_turns c (t ∷ turns) = take_turns (take_turn c t) turns
