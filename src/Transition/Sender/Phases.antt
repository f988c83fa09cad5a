-- ===== src/Transition/Sender/Phases.antt =====
-- What a phase of the sender says of the acknowledgement and of readiness.
use agora_link.Prelude.{ℕ, ◌≤◌, ◌<◌, ◌≡◌, true, count_up32, Option, none, some, arith}
use agora_link.Transition.{
  SenderTransitionPhase, idle, control_pending, await_control_ack, activate_new_session,
  await_receiver_readiness, committed, rollback, failed,
}
use agora_link.Transition.Sender.{announces, ended_phase}

abbrev IsAbsent : Option ℕ → Type 0
IsAbsent none = Unit
IsAbsent (some n) = ⊥

abbrev IsThere : Option ℕ → Type 0
IsThere none = ⊥
IsThere (some n) = Unit

abbrev pub PhaseFits : SenderTransitionPhase → Option ℕ → Option ℕ → ℕ → Type 0
PhaseFits idle ack readiness attempts = ⊥
PhaseFits control_pending ack readiness attempts =
    IsAbsent ack × IsAbsent readiness × (attempts ≡ 0)
PhaseFits await_control_ack ack readiness attempts =
    IsAbsent ack × IsAbsent readiness × (0 < attempts)
PhaseFits activate_new_session ack readiness attempts =
    IsThere ack × IsAbsent readiness × (0 ≤ attempts)
PhaseFits await_receiver_readiness ack readiness attempts =
    IsThere ack × IsThere readiness × (0 ≤ attempts)
PhaseFits committed ack readiness attempts = IsThere ack × IsThere readiness × (0 ≤ attempts)
PhaseFits rollback ack readiness attempts = IsAbsent ack × IsAbsent readiness × (0 ≤ attempts)
PhaseFits failed ack readiness attempts = IsThere ack × Unit × (0 ≤ attempts)

pub sent_fits :
    (phase : SenderTransitionPhase) (ack readiness : Option ℕ) (attempts : ℕ)
    → announces phase ≡ true
    → PhaseFits phase ack readiness attempts
    → PhaseFits await_control_ack ack readiness (count_up32 attempts)
sent_fits control_pending ack readiness attempts a h = (h.0, h.1, omega arith)
sent_fits await_control_ack ack readiness attempts a h = (h.0, h.1, omega arith)
sent_fits idle ack readiness attempts a h = absurd h
sent_fits activate_new_session ack readiness attempts a h = cc
sent_fits await_receiver_readiness ack readiness attempts a h = cc
sent_fits committed ack readiness attempts a h = cc
sent_fits rollback ack readiness attempts a h = cc
sent_fits failed ack readiness attempts a h = cc

pub heard_fits :
    (phase : SenderTransitionPhase) (ack readiness : Option ℕ) (attempts now : ℕ)
    → announces phase ≡ true
    → PhaseFits phase ack readiness attempts
    → PhaseFits activate_new_session (some now) readiness attempts
heard_fits control_pending ack readiness attempts now a h = (tt, h.1, omega arith)
heard_fits await_control_ack ack readiness attempts now a h = (tt, h.1, omega arith)
heard_fits idle ack readiness attempts now a h = absurd h
heard_fits activate_new_session ack readiness attempts now a h = cc
heard_fits await_receiver_readiness ack readiness attempts now a h = cc
heard_fits committed ack readiness attempts now a h = cc
heard_fits rollback ack readiness attempts now a h = cc
heard_fits failed ack readiness attempts now a h = cc

IsAbsent-readiness :
    (phase : SenderTransitionPhase) (readiness : Option ℕ) (attempts : ℕ)
    → PhaseFits phase none readiness attempts
    → IsAbsent readiness
IsAbsent-readiness control_pending readiness attempts h = h.1
IsAbsent-readiness await_control_ack readiness attempts h = h.1
IsAbsent-readiness rollback readiness attempts h = h.1
IsAbsent-readiness idle readiness attempts h = absurd h
IsAbsent-readiness activate_new_session readiness attempts h = absurd h.0
IsAbsent-readiness await_receiver_readiness readiness attempts h = absurd h.0
IsAbsent-readiness committed readiness attempts h = absurd h.0
IsAbsent-readiness failed readiness attempts h = absurd h.0

pub ended_fits :
    (phase : SenderTransitionPhase) (ack readiness : Option ℕ) (attempts : ℕ)
    → PhaseFits phase ack readiness attempts
    → PhaseFits (ended_phase ack) ack readiness attempts
ended_fits phase none readiness attempts h =
    (tt, IsAbsent-readiness phase readiness attempts h, omega arith)
ended_fits phase (some at) readiness attempts h = (tt, tt, omega arith)
