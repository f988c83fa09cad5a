-- ===== src/Shutdown/Coordinator/Once.antt =====
-- Of all threads, one begins the cleanup and one gives the reason to stop.
use agora_link.Prelude.{
  ℕ, ◌+◌, ◌≤◌, ◌<◌, ◌≡◌, refl, sym, ap, ◌∙◌, ◌++◌, List, [], ◌∷◌, Bool, Bool-cases, inl, inr, true,
  false, ◌==◌, ne→==_false, ==→eq, if◌then◌else◌, Option, none, some, arith,
}
use agora_link.Shutdown.{
  StopReason, LifecycleState, duration, ctrl_c, window_closed, receiver_readiness_timeout,
  profile_transition_failed, qsv_timeout, internal_error, local_stop, peer_closed, peer_timeout,
  fatal_error, startup_failure, starting, running, stopping, stopped, failed, failed_cleanup,
  reason_code_of, reason_from_code, state_code, state_from_code,
}
use agora_link.Shutdown.Coordinator.{
  ShutdownCoordinator, CancellationToken, new_coordinator, LoopTurn, returns, retries, turn_of,
  compare_exchange, cancel_token, request_stop, mark_running, fail_from, mark_failed_turn,
  clean_from, begin_cleanup_turn, finish_cleanup, ThreadTurn, stops, runs, fails, cleans, finishes,
  take_turn, take_turns, token_reason, is_cancelled, looks,
}

-- Whether a turn begins the cleanup: only a turn of `begin_cleanup` that returns true does.
abbrev pub begins : LoopTurn → ℕ
begins (returns true) = 1
begins (returns false) = 0
begins retries = 0

abbrev begun_by : ShutdownCoordinator → ThreadTurn → ℕ
begun_by c (cleans loaded) = begins (begin_cleanup_turn c loaded).1
begun_by c t = 0

-- How often the cleanup was begun.
abbrev pub begun : ShutdownCoordinator → List ThreadTurn → ℕ
begun c [] = 0
begun c (t ∷ turns) = begun_by c t + begun (take_turn c t) turns

-- How often it may still be begun.
abbrev left_in : LifecycleState → ℕ
left_in starting = 1
left_in running = 1
left_in failed = 1
left_in state = 0

abbrev left : ℕ → ℕ
left code = left_in (state_from_code code)

left_code :
    (state : LifecycleState) (cell : ℕ)
    → (cell == state_code state) ≡ true
    → left cell ≡ left_in state
left_code starting cell e = ap left (==→eq cell 0 e)
left_code running cell e = ap left (==→eq cell 1 e)
left_code stopping cell e = ap left (==→eq cell 2 e)
left_code stopped cell e = ap left (==→eq cell 3 e)
left_code failed cell e = ap left (==→eq cell 4 e)
left_code failed_cleanup cell e = ap left (==→eq cell 5 e)

-- An exchange that begins the cleanup uses up the last time that it can be begun.
module _ (c : ShutdownCoordinator) (old new : LifecycleState) where
  exchange_begins :
      1 + left (state_code new) ≤ left_in old
      → begins (turn_of (compare_exchange c.lifecycle (state_code old) (state_code new)).1)
          + left (compare_exchange c.lifecycle (state_code old) (state_code new)).0
        ≤ left c.lifecycle
  exchange_begins h = elim (Bool-cases (c.lifecycle == state_code old)) [
    | inl e ↦ rw (e) (omega (arith, h, left_code old c.lifecycle e))
    | inr e ↦ rw (e) (omega arith)
  ]

  exchange_keeps :
      left (state_code new) ≤ left_in old
      → left (compare_exchange c.lifecycle (state_code old) (state_code new)).0 ≤ left c.lifecycle
  exchange_keeps h = elim (Bool-cases (c.lifecycle == state_code old)) [
    | inl e ↦ rw (e) (omega (arith, h, left_code old c.lifecycle e))
    | inr e ↦ rw (e) (omega arith)
  ]

clean_begins :
    (loaded : LifecycleState) (c : ShutdownCoordinator)
    → begins (clean_from loaded c).1 + left (clean_from loaded c).0.lifecycle ≤ left c.lifecycle
clean_begins starting c = exchange_begins c starting stopping (omega arith)
clean_begins running c = exchange_begins c running stopping (omega arith)
clean_begins failed c = exchange_begins c failed stopping (omega arith)
clean_begins stopping c = omega arith
clean_begins stopped c = omega arith
clean_begins failed_cleanup c = omega arith

fail_keeps :
    (loaded : LifecycleState) (c : ShutdownCoordinator)
    → left (fail_from loaded c).0.lifecycle ≤ left c.lifecycle
fail_keeps starting c = exchange_keeps c starting failed (omega arith)
fail_keeps running c = exchange_keeps c running failed (omega arith)
fail_keeps failed c = omega arith
fail_keeps stopping c = omega arith
fail_keeps stopped c = omega arith
fail_keeps failed_cleanup c = omega arith

finish_keeps :
    (all : Bool) (n : ℕ) → left (state_code (if all then stopped else failed_cleanup)) ≤ n
finish_keeps true n = omega arith
finish_keeps false n = omega arith

turn_begins :
    (c : ShutdownCoordinator) (t : ThreadTurn)
    → begun_by c t + left (take_turn c t).lifecycle ≤ left c.lifecycle
unfolding take_turn request_stop mark_running mark_failed_turn begin_cleanup_turn finish_cleanup
    is_cancelled
turn_begins c (stops reason) = omega arith
turn_begins c (looks ctrl_c_requested) = omega arith
turn_begins c runs = omega (arith, exchange_keeps c starting running (omega arith))
turn_begins c (fails loaded) = omega (arith, fail_keeps (state_from_code loaded) c)
turn_begins c (cleans loaded) = clean_begins (state_from_code loaded) c
turn_begins c (finishes all) = omega (arith, finish_keeps all (left c.lifecycle))

begun-left : (c : ShutdownCoordinator) (turns : List ThreadTurn) → begun c turns ≤ left c.lifecycle
begun-left c [] = omega arith
begun-left c (t ∷ turns) = omega (arith, turn_begins c t, begun-left (take_turn c t) turns)

-- In any interleaving of the turns of any number of threads, with whatever lifecycle a loop loaded
-- before its turn, at most one call of `begin_cleanup` returns true.
pub begun-once : (turns : List ThreadTurn) → begun new_coordinator turns ≤ 1
begun-once turns = begun-left new_coordinator turns

-- The reason that is asked for first; a look at the token asks by Ctrl-C, if that was requested.
abbrev pub first_stop : List ThreadTurn → Option StopReason
first_stop [] = none
first_stop (stops reason ∷ turns) = some reason
first_stop (looks true ∷ turns) = some ctrl_c
first_stop (t ∷ turns) = first_stop turns

code_pos : (r : StopReason) → 0 < reason_code_of r
code_pos duration = omega arith
code_pos ctrl_c = omega arith
code_pos window_closed = omega arith
code_pos receiver_readiness_timeout = omega arith
code_pos profile_transition_failed = omega arith
code_pos qsv_timeout = omega arith
code_pos internal_error = omega arith
code_pos local_stop = omega arith
code_pos peer_closed = omega arith
code_pos peer_timeout = omega arith
code_pos fatal_error = omega arith
code_pos startup_failure = omega arith

from_code-code_of : (r : StopReason) → reason_from_code (reason_code_of r) ≡ some r
from_code-code_of duration = refl
from_code-code_of ctrl_c = refl
from_code-code_of window_closed = refl
from_code-code_of receiver_readiness_timeout = refl
from_code-code_of profile_transition_failed = refl
from_code-code_of qsv_timeout = refl
from_code-code_of internal_error = refl
from_code-code_of local_stop = refl
from_code-code_of peer_closed = refl
from_code-code_of peer_timeout = refl
from_code-code_of fatal_error = refl
from_code-code_of startup_failure = refl

kept_reason :
    (c : ShutdownCoordinator) (r : StopReason)
    → 0 < c.token.reason
    → (request_stop c r).0.token.reason ≡ c.token.reason
unfolding request_stop cancel_token
kept_reason c r h = rw (ne→==_false c.token.reason 0 (λ e. omega arith)) refl

-- A look after a reason was given, and a look that finds no reason.
looked_reason :
    (ctrl_c_requested : Bool) (c : ShutdownCoordinator)
    → 0 < c.token.reason
    → (is_cancelled c.token ctrl_c_requested).0.reason ≡ c.token.reason
unfolding is_cancelled cancel_token
looked_reason false c h = refl
looked_reason true c h = rw (ne→==_false c.token.reason 0 (λ e. omega arith)) refl

clean_token :
    (loaded : LifecycleState) (c : ShutdownCoordinator) → (clean_from loaded c).0.token ≡ c.token
clean_token starting c = refl
clean_token running c = refl
clean_token failed c = refl
clean_token stopping c = refl
clean_token stopped c = refl
clean_token failed_cleanup c = refl

fail_token :
    (loaded : LifecycleState) (c : ShutdownCoordinator) → (fail_from loaded c).0.token ≡ c.token
fail_token starting c = refl
fail_token running c = refl
fail_token failed c = refl
fail_token stopping c = refl
fail_token stopped c = refl
fail_token failed_cleanup c = refl

turns_keep_reason :
    (c : ShutdownCoordinator) (turns : List ThreadTurn)
    → 0 < c.token.reason
    → (take_turns c turns).token.reason ≡ c.token.reason
unfolding take_turns take_turn mark_running mark_failed_turn begin_cleanup_turn finish_cleanup
turns_keep_reason c [] h = refl
turns_keep_reason c (looks ctrl_c_requested ∷ turns) h =
    let d : ShutdownCoordinator = record c { token = (is_cancelled c.token ctrl_c_requested).0 } in
    let same : d.token.reason ≡ c.token.reason = looked_reason ctrl_c_requested c h in
    turns_keep_reason d turns (rw (same) h) ∙ same
turns_keep_reason c (stops r ∷ turns) h =
    let same : (request_stop c r).0.token.reason ≡ c.token.reason = kept_reason c r h in
    turns_keep_reason (request_stop c r).0 turns (rw (same) h) ∙ same
turns_keep_reason c (runs ∷ turns) h = turns_keep_reason (mark_running c).0 turns h
turns_keep_reason c (fails loaded ∷ turns) h =
    let same : (mark_failed_turn c loaded).0.token.reason ≡ c.token.reason =
      ap (λ (t : CancellationToken). t.reason) (fail_token (state_from_code loaded) c) in
    turns_keep_reason (mark_failed_turn c loaded).0 turns (rw (same) h) ∙ same
turns_keep_reason c (cleans loaded ∷ turns) h =
    let same : (begin_cleanup_turn c loaded).0.token.reason ≡ c.token.reason =
      ap (λ (t : CancellationToken). t.reason) (clean_token (state_from_code loaded) c) in
    turns_keep_reason (begin_cleanup_turn c loaded).0 turns (rw (same) h) ∙ same
turns_keep_reason c (finishes all ∷ turns) h = turns_keep_reason (finish_cleanup c all) turns h

first_reason :
    (c : ShutdownCoordinator) (turns : List ThreadTurn)
    → c.token.reason ≡ 0
    → reason_from_code (take_turns c turns).token.reason ≡ first_stop turns
unfolding take_turns take_turn mark_running mark_failed_turn begin_cleanup_turn finish_cleanup
    request_stop cancel_token is_cancelled
first_reason c [] e = ap reason_from_code e
first_reason c (stops r ∷ turns) e =
    let now : (request_stop c r).0.token.reason ≡ reason_code_of r = rw (e) refl in
    ap reason_from_code (turns_keep_reason (request_stop c r).0 turns (rw (now) (code_pos r)) ∙ now)
    ∙ from_code-code_of r
first_reason c (looks true ∷ turns) e =
    let d : ShutdownCoordinator = record c { token = (is_cancelled c.token true).0 } in
    let now : d.token.reason ≡ reason_code_of ctrl_c = rw (e) refl in
    ap reason_from_code (turns_keep_reason d turns (rw (now) (code_pos ctrl_c)) ∙ now)
    ∙ from_code-code_of ctrl_c
first_reason c (looks false ∷ turns) e =
    first_reason (record c { token = (is_cancelled c.token false).0 }) turns e
first_reason c (runs ∷ turns) e = first_reason (mark_running c).0 turns e
first_reason c (fails loaded ∷ turns) e =
    first_reason (mark_failed_turn c loaded).0 turns
      (ap (λ (t : CancellationToken). t.reason) (fail_token (state_from_code loaded) c) ∙ e)
first_reason c (cleans loaded ∷ turns) e =
    first_reason (begin_cleanup_turn c loaded).0 turns
      (ap (λ (t : CancellationToken). t.reason) (clean_token (state_from_code loaded) c) ∙ e)
first_reason c (finishes all ∷ turns) e = first_reason (finish_cleanup c all) turns e

take_turns-append :
    (c : ShutdownCoordinator) (turns more : List ThreadTurn)
    → take_turns c (turns ++ more) ≡ take_turns (take_turns c turns) more
unfolding take_turns
take_turns-append c [] more = refl
take_turns-append c (t ∷ turns) more = take_turns-append (take_turn c t) turns more

-- In any interleaving, the reason that the token gives is the one that was asked for first, and none
-- if none was: by a call of `request_stop`, or by Ctrl-C, which asks at the first look at the token that
-- finds it requested. The call that gives the reason is such a look itself, whether Ctrl-C was requested
-- by then or not.
pub token_reason-first :
    (turns : List ThreadTurn) (ctrl_c_requested : Bool)
    → (token_reason (take_turns new_coordinator turns).token ctrl_c_requested).1
      ≡ first_stop (turns ++ looks ctrl_c_requested ∷ [])
unfolding token_reason is_cancelled take_turns take_turn
token_reason-first turns ctrl_c_requested =
    let look : List ThreadTurn = looks ctrl_c_requested ∷ [] in
    ap (λ (c : ShutdownCoordinator). reason_from_code c.token.reason)
      (sym (take_turns-append new_coordinator turns look))
    ∙ first_reason new_coordinator (turns ++ look) refl
