-- ===== src/Transition/Readiness.antt =====
-- `ReceiverReadinessTransition`: the receiver waits for the first key frame of the new session, for its
-- first rendered frame, and for three windows of progress.
pub mod Stages
pub mod Deadlines
pub mod Endings
use agora_link.Prelude.{
  ℕ, ◌+◌, ◌-◌, min, Bool, true, false, ◌&&◌, not, leb, ltb, if◌then◌else◌, count_up32, Option, none,
  some, Result, ok, err, ◌>>=◌,
}
use agora_link.Transition.{
  ReceiverTransitionPhase, receiver_idle, await_new_session_data, new_session_activated,
  await_first_idr, await_first_rendered_frame, settling, receiver_committed, receiver_failed,
  FailureReason, receiver_transition_overall_timeout, receiver_settle_recovery_limit,
  receiver_first_idr_timeout, receiver_first_render_timeout, receiver_settle_timeout,
  receiver_readiness_timeout, receiver_transition_hard_deadline, receiver_first_idr_deadline,
  receiver_first_render_deadline, receiver_settle_deadline, receiver_max_settle_restarts,
}

pub record ReceiverReadinessObservation : Type 0 where
  pub first_idr_decoded : Bool
  pub render_initialized : Bool
  pub frames_rendered_total : ℕ
  pub progressing : Bool
  pub damaged_gop_total : ℕ

pub data ReceiverReadinessOutcome : Type 0 where
  pending : ReceiverReadinessOutcome
  ready : ReceiverReadinessOutcome
  not_ready : FailureReason → ReceiverReadinessOutcome

-- `first_idr_wait_ms` is held as the duration itself, in microseconds.
pub record ReceiverReadinessTransition : Type 0 where
  pub phase : ReceiverTransitionPhase
  pub started_at : ℕ
  pub overall_deadline : ℕ
  pub phase_deadline : ℕ
  pub first_idr_at : Option ℕ
  pub first_rendered_at : Option ℕ
  pub settle_started_at : Option ℕ
  pub settle_windows : ℕ
  pub recovery_count : ℕ
  pub settle_restart_count : ℕ
  pub failure_stage : Option ReceiverTransitionPhase
  pub failure_reason : Option FailureReason
  pub first_idr_wait : Option ℕ
  pub rendered_baseline : ℕ
  pub last_damaged_gop_total : ℕ
  pub recovering_after_damage : Bool

unfoldable pub begin_readiness : ℕ → ℕ → ℕ → ReceiverReadinessTransition
begin_readiness now rendered damaged = record {
  phase = await_first_idr;
  started_at = now;
  overall_deadline = now + receiver_transition_hard_deadline;
  phase_deadline = now + receiver_first_idr_deadline;
  first_idr_at = none;
  first_rendered_at = none;
  settle_started_at = none;
  settle_windows = 0;
  recovery_count = 0;
  settle_restart_count = 0;
  failure_stage = none;
  failure_reason = none;
  first_idr_wait = none;
  rendered_baseline = rendered;
  last_damaged_gop_total = damaged;
  recovering_after_damage = false;
}

-- What a stage passes on: the state, or the state and the outcome of an early return.
abbrev pub Stage : Type 0
Stage = Result (ReceiverReadinessTransition × ReceiverReadinessOutcome) ReceiverReadinessTransition

-- `fail`
abbrev pub fail :
    ReceiverReadinessTransition
    → FailureReason
    → ReceiverReadinessTransition × ReceiverReadinessOutcome
fail s reason = (
  record s { failure_stage = some s.phase; failure_reason = some reason; phase = receiver_failed },
  not_ready reason,
)

-- Damage to the stream sends a receiver that rendered or settles back to wait for a key frame.
abbrev pub restart :
    ReceiverReadinessTransition → ℕ → ReceiverReadinessObservation → ReceiverReadinessTransition
restart s now o = record s {
  last_damaged_gop_total = o.damaged_gop_total;
  recovery_count = count_up32 s.recovery_count;
  recovering_after_damage = true;
  phase = await_first_idr;
  phase_deadline = min (now + receiver_first_idr_deadline) s.overall_deadline;
  first_rendered_at = none;
  settle_started_at = none;
  settle_windows = 0;
  rendered_baseline = o.frames_rendered_total;
}

abbrev pub note_damage_in :
    ReceiverTransitionPhase
    → ReceiverReadinessTransition
    → ℕ
    → ReceiverReadinessObservation
    → ReceiverReadinessTransition
note_damage_in await_first_rendered_frame s now o = restart s now o
note_damage_in settling s now o = restart s now o
note_damage_in phase s now o = record s { last_damaged_gop_total = o.damaged_gop_total }

abbrev pub note_damage :
    ReceiverReadinessTransition → ℕ → ReceiverReadinessObservation → ReceiverReadinessTransition
note_damage s now o =
    if ltb s.last_damaged_gop_total o.damaged_gop_total then note_damage_in s.phase s now o else s

abbrev pub check_overall : ℕ → ReceiverReadinessTransition → Stage
check_overall now s =
    if leb s.overall_deadline now then err (fail s receiver_transition_overall_timeout) else ok s

-- The restart that a recovery counts, or the failure of one restart too many.
abbrev pub count_restart : Bool → ReceiverReadinessTransition → Stage
count_restart false s = ok s
count_restart true s =
    if leb receiver_max_settle_restarts s.settle_restart_count
    then err (fail s receiver_settle_recovery_limit)
    else ok (record s {
      settle_restart_count = count_up32 s.settle_restart_count;
      recovering_after_damage = false;
    })

-- The time of the first key frame is kept once it is known, and so is the wait for it.
abbrev first_or : Option ℕ → ℕ → ℕ
first_or none now = now
first_or (some at) now = at

abbrev wait_or : Option ℕ → Option ℕ → ℕ → Option ℕ
wait_or none wait elapsed = some elapsed
wait_or (some at) wait elapsed = wait

abbrev pub await_render :
    ℕ → ReceiverReadinessObservation → ReceiverReadinessTransition → ReceiverReadinessTransition
await_render now o s = record s {
  first_idr_at = some (first_or s.first_idr_at now);
  first_idr_wait = wait_or s.first_idr_at s.first_idr_wait (now - s.started_at);
  phase = await_first_rendered_frame;
  rendered_baseline = o.frames_rendered_total;
  phase_deadline = min (now + receiver_first_render_deadline) s.overall_deadline;
}

abbrev pub idr_in :
    ReceiverTransitionPhase
    → Bool
    → ℕ
    → ReceiverReadinessObservation
    → ReceiverReadinessTransition
    → Stage
idr_in await_first_idr true now o s =
    count_restart s.recovering_after_damage s >>= λ r. ok (await_render now o r)
idr_in phase decoded now o s = ok s

abbrev pub idr_stage : ℕ → ReceiverReadinessObservation → ReceiverReadinessTransition → Stage
idr_stage now o s = idr_in s.phase o.first_idr_decoded now o s

abbrev start_settling : ℕ → ReceiverReadinessTransition → ReceiverReadinessTransition
start_settling now s = record s {
  first_rendered_at = some now;
  settle_started_at = some now;
  phase = settling;
  phase_deadline = min (now + receiver_settle_deadline) s.overall_deadline;
}

abbrev pub render_in :
    ReceiverTransitionPhase → Bool → ℕ → ReceiverReadinessTransition → ReceiverReadinessTransition
render_in await_first_rendered_frame true now s = start_settling now s
render_in phase rendered now s = s

abbrev pub render_stage :
    ℕ → ReceiverReadinessObservation → ReceiverReadinessTransition → ReceiverReadinessTransition
render_stage now o s =
    render_in s.phase (o.render_initialized && ltb s.rendered_baseline o.frames_rendered_total) now
      s

abbrev pub counted_windows : Bool → ℕ → ℕ
counted_windows true n = count_up32 n
counted_windows false n = 0

abbrev pub settle_with : ℕ → ReceiverReadinessTransition → Stage
settle_with windows s =
    if leb 3 windows
    then err (record s { settle_windows = windows; phase = receiver_committed }, ready)
    else ok (record s { settle_windows = windows })

abbrev pub settle_in :
    ReceiverTransitionPhase → ReceiverReadinessObservation → ReceiverReadinessTransition → Stage
settle_in settling o s = settle_with (counted_windows o.progressing s.settle_windows) s
settle_in phase o s = ok s

abbrev pub settle_stage : ReceiverReadinessObservation → ReceiverReadinessTransition → Stage
settle_stage o s = settle_in s.phase o s

abbrev pub timeout_reason : ReceiverTransitionPhase → FailureReason
timeout_reason await_first_idr = receiver_first_idr_timeout
timeout_reason await_first_rendered_frame = receiver_first_render_timeout
timeout_reason settling = receiver_settle_timeout
timeout_reason phase = receiver_readiness_timeout

-- The test of the phase's own deadline, unless a stage returned.
abbrev pub check_phase : ℕ → Stage → ReceiverReadinessTransition × ReceiverReadinessOutcome
check_phase now (err returned) = returned
check_phase now (ok s) =
    if leb s.phase_deadline now then fail s (timeout_reason s.phase) else (s, pending)

abbrev pub observe_stages :
    ReceiverReadinessTransition
    → ℕ
    → ReceiverReadinessObservation
    → ReceiverReadinessTransition × ReceiverReadinessOutcome
observe_stages s now o = check_phase now (
    check_overall now (note_damage s now o) >>= λ a.
    idr_stage now o a >>= λ b. settle_stage o (render_stage now o b))

abbrev reason_or : Option FailureReason → FailureReason
reason_or none = receiver_readiness_timeout
reason_or (some reason) = reason

abbrev pub observe_in :
    ReceiverTransitionPhase
    → ReceiverReadinessTransition
    → ℕ
    → ReceiverReadinessObservation
    → ReceiverReadinessTransition × ReceiverReadinessOutcome
observe_in receiver_committed s now o = (s, ready)
observe_in receiver_failed s now o = (s, not_ready (reason_or s.failure_reason))
observe_in phase s now o = observe_stages s now o

unfoldable pub observe_readiness :
    ReceiverReadinessTransition
    → ℕ
    → ReceiverReadinessObservation
    → ReceiverReadinessTransition × ReceiverReadinessOutcome
observe_readiness s now o = observe_in s.phase s now o

abbrev settle_remaining_in : ReceiverTransitionPhase → ℕ → ℕ
settle_remaining_in settling remaining = remaining
settle_remaining_in phase remaining = 0

unfoldable settle_deadline_remaining : ReceiverReadinessTransition → ℕ → ℕ
settle_deadline_remaining s now = settle_remaining_in s.phase (s.phase_deadline - now)

unfoldable overall_deadline_remaining : ReceiverReadinessTransition → ℕ → ℕ
overall_deadline_remaining s now = s.overall_deadline - now
