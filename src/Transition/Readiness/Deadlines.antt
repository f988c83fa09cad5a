-- ===== src/Transition/Readiness/Deadlines.antt =====
-- An observation keeps what the phases of the receiver mean, and so does any row of observations.
use agora_link.Prelude.{ℕ, refl, List, [], ◌∷◌, leb, ltb, if_cases, ◌&&◌, ok, err, ◌>>=◌, arith}
use agora_link.Transition.{
  ReceiverTransitionPhase, receiver_idle, await_new_session_data, new_session_activated,
  await_first_idr, await_first_rendered_frame, settling, receiver_committed, receiver_failed,
}
use agora_link.Transition.Readiness.{
  ReceiverReadinessTransition, ReceiverReadinessObservation, pending, Stage, begin_readiness,
  note_damage, check_overall, idr_stage, render_stage, settle_stage, check_phase, observe_stages,
  observe_in, observe_readiness, fail, timeout_reason,
}
use agora_link.Transition.Readiness.Stages.{
  IsConsistent, StageHolds, bind-StageHolds, note_damage-IsConsistent, check_overall-StageHolds,
  idr_in-StageHolds, render_in-IsConsistent, settle_in-StageHolds,
}

module _ (start : ℕ) where
  check_phase-IsConsistent :
      (now : ℕ) (m : Stage) → StageHolds start m → IsConsistent start (check_phase now m).0
  check_phase-IsConsistent now (err r) h = h
  check_phase-IsConsistent now (ok s) h =
      if_cases (λ r. IsConsistent start r.0) (leb s.phase_deadline now)
        (fail s (timeout_reason s.phase)) (s, pending) (λ _. (h.0, tt)) (λ _. h)

  observe_stages-IsConsistent :
      (s : ReceiverReadinessTransition) (now : ℕ) (o : ReceiverReadinessObservation)
      → IsConsistent start s
      → IsConsistent start (observe_stages s now o).0
  observe_stages-IsConsistent s now o h =
      let settle : ReceiverReadinessTransition → Stage =
        λ b. settle_stage o (render_stage now o b) in
      check_phase-IsConsistent now
        (check_overall now (note_damage s now o) >>= λ a. idr_stage now o a >>= settle)
        (bind-StageHolds start (check_overall now (note_damage s now o))
          (λ a. idr_stage now o a >>= settle)
          (check_overall-StageHolds start now (note_damage s now o)
            (note_damage-IsConsistent start s now o h))
          (λ a ha.
            bind-StageHolds start (idr_stage now o a) settle
              (idr_in-StageHolds start a.phase o.first_idr_decoded now o a refl ha)
              (λ b hb.
                settle_in-StageHolds start (render_stage now o b).phase o (render_stage now o b)
                  refl
                  (render_in-IsConsistent start b.phase
                    (o.render_initialized && ltb b.rendered_baseline o.frames_rendered_total) now b
                    refl hb))))

  observe_in-IsConsistent :
      (phase : ReceiverTransitionPhase) (s : ReceiverReadinessTransition) (now : ℕ)
      (o : ReceiverReadinessObservation)
      → IsConsistent start s
      → IsConsistent start (observe_in phase s now o).0
  observe_in-IsConsistent receiver_committed s now o h = h
  observe_in-IsConsistent receiver_failed s now o h = h
  observe_in-IsConsistent await_first_idr s now o h = observe_stages-IsConsistent s now o h
  observe_in-IsConsistent await_first_rendered_frame s now o h =
      observe_stages-IsConsistent s now o h
  observe_in-IsConsistent settling s now o h = observe_stages-IsConsistent s now o h
  observe_in-IsConsistent receiver_idle s now o h = observe_stages-IsConsistent s now o h
  observe_in-IsConsistent await_new_session_data s now o h = observe_stages-IsConsistent s now o h
  observe_in-IsConsistent new_session_activated s now o h = observe_stages-IsConsistent s now o h

abbrev pub observe_readiness_all :
    ReceiverReadinessTransition
    → List (ℕ × ReceiverReadinessObservation)
    → ReceiverReadinessTransition
observe_readiness_all s [] = s
observe_readiness_all s ((now, o) ∷ rest) = observe_readiness_all (observe_readiness s now o).0 rest

all-IsConsistent :
    (start : ℕ) (s : ReceiverReadinessTransition) (rest : List (ℕ × ReceiverReadinessObservation))
    → IsConsistent start s
    → IsConsistent start (observe_readiness_all s rest)
unfolding observe_readiness
all-IsConsistent start s [] h = h
all-IsConsistent start s ((now, o) ∷ rest) h =
    all-IsConsistent start (observe_readiness s now o).0 rest
      (observe_in-IsConsistent start s.phase s now o h)

begin-IsConsistent :
    (start rendered damaged : ℕ) → IsConsistent start (begin_readiness start rendered damaged)
unfolding begin_readiness
begin-IsConsistent start rendered damaged =
    (record { hard = refl; inside = omega arith; few = omega arith }, (refl, refl))

-- After any row of observations, in whichever order of times, the overall deadline is eight seconds
-- after the start, the phase's deadline is not after it, at most one restart of the settling was
-- granted, and the phase says what is known: a receiver that settles has decoded a key frame and
-- rendered a frame and counted fewer than three windows, one that committed has counted three.
pub observe_readiness-IsConsistent :
    (start rendered damaged : ℕ) (observations : List (ℕ × ReceiverReadinessObservation))
    → IsConsistent start
        (observe_readiness_all (begin_readiness start rendered damaged) observations)
observe_readiness-IsConsistent start rendered damaged observations =
    all-IsConsistent start (begin_readiness start rendered damaged) observations
      (begin-IsConsistent start rendered damaged)
