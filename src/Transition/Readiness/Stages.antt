-- ===== src/Transition/Readiness/Stages.antt =====
-- What the phases of the receiver mean, and that each stage of an observation keeps it.
use agora_link.Prelude.{
  ℕ, ◌+◌, ◌≤◌, ◌<◌, ◌≡◌, refl, sym, Bool, true, false, leb, leb_false→lt, if_cases, count_up32,
  Option, none, some, ok, err, ◌>>=◌, arith,
}
use mathlib.Core.Path.{subst}
use agora_link.Transition.{
  ReceiverTransitionPhase, receiver_idle, await_new_session_data, new_session_activated,
  await_first_idr, await_first_rendered_frame, settling, receiver_committed, receiver_failed,
  receiver_transition_overall_timeout, receiver_settle_recovery_limit, receiver_max_settle_restarts,
}
use agora_link.Transition.Readiness.{
  ReceiverReadinessTransition, ReceiverReadinessObservation, ready, Stage, note_damage,
  note_damage_in, check_overall, count_restart, await_render, idr_in, render_in, counted_windows,
  settle_with, settle_in, fail,
}

abbrev IsPresent : Option ℕ → Type 0
IsPresent none = ⊥
IsPresent (some n) = Unit

-- What a phase says of the times and of the windows that were counted.
abbrev PhaseHolds : ReceiverTransitionPhase → Option ℕ → Option ℕ → ℕ → Type 0
PhaseHolds await_first_idr idr rendered windows = (rendered ≡ none) × (windows ≡ 0)
PhaseHolds await_first_rendered_frame idr rendered windows =
    IsPresent idr × (rendered ≡ none) × (windows ≡ 0)
PhaseHolds settling idr rendered windows = IsPresent idr × IsPresent rendered × (windows < 3)
PhaseHolds receiver_committed idr rendered windows =
    IsPresent idr × IsPresent rendered × (windows ≡ 3)
PhaseHolds receiver_failed idr rendered windows = Unit
PhaseHolds phase idr rendered windows = ⊥

pub record Timely (start overall phase_deadline restarts : ℕ) : Type 0 where
  pub hard : overall ≡ start + 8000000
  pub inside : phase_deadline ≤ overall
  pub few : restarts ≤ 1

abbrev pub IsConsistent : ℕ → ReceiverReadinessTransition → Type 0
IsConsistent start s =
    Timely start s.overall_deadline s.phase_deadline s.settle_restart_count
    × PhaseHolds s.phase s.first_idr_at s.first_rendered_at s.settle_windows

module _ (start : ℕ) where
  abbrev pub StageHolds : Stage → Type 0
  StageHolds (ok s) = IsConsistent start s
  StageHolds (err (s, _)) = IsConsistent start s

  pub bind-StageHolds :
      (m : Stage) (f : ReceiverReadinessTransition → Stage)
      → StageHolds m
      → ((s : ReceiverReadinessTransition) → IsConsistent start s → StageHolds (f s))
      → StageHolds (m >>= f)
  bind-StageHolds (ok s) f h g = g s h
  bind-StageHolds (err r) f h g = h

  sooner :
      {overall d restarts : ℕ} (e : ℕ)
      → Timely start overall d restarts
      → e ≤ overall
      → Timely start overall e restarts
  sooner e t le = record { hard = t.hard; inside = le; few = t.few }

  note_damage_in-IsConsistent :
      (phase : ReceiverTransitionPhase) (s : ReceiverReadinessTransition) (now : ℕ)
      (o : ReceiverReadinessObservation)
      → IsConsistent start s
      → IsConsistent start (note_damage_in phase s now o)
  note_damage_in-IsConsistent await_first_rendered_frame s now o (t, h) =
      (sooner _ t (omega arith), (refl, refl))
  note_damage_in-IsConsistent settling s now o (t, h) = (sooner _ t (omega arith), (refl, refl))
  note_damage_in-IsConsistent await_first_idr s now o h = h
  note_damage_in-IsConsistent receiver_idle s now o h = h
  note_damage_in-IsConsistent await_new_session_data s now o h = h
  note_damage_in-IsConsistent new_session_activated s now o h = h
  note_damage_in-IsConsistent receiver_committed s now o h = h
  note_damage_in-IsConsistent receiver_failed s now o h = h

  pub note_damage-IsConsistent :
      (s : ReceiverReadinessTransition) (now : ℕ) (o : ReceiverReadinessObservation)
      → IsConsistent start s
      → IsConsistent start (note_damage s now o)
  note_damage-IsConsistent s now o h =
      if_cases (IsConsistent start) _ _ _ (λ _. note_damage_in-IsConsistent s.phase s now o h)
        (λ _. h)

  pub check_overall-StageHolds :
      (now : ℕ) (s : ReceiverReadinessTransition)
      → IsConsistent start s
      → StageHolds (check_overall now s)
  check_overall-StageHolds now s h =
      if_cases StageHolds (leb s.overall_deadline now)
        (err (fail s receiver_transition_overall_timeout)) (ok s) (λ _. (h.0, tt)) (λ _. h)

  -- The first key frame is waited for in no other phase.
  abbrev Waiting : ReceiverReadinessTransition → Type 0
  Waiting s =
      Timely start s.overall_deadline s.phase_deadline s.settle_restart_count
      × (s.first_rendered_at ≡ none)
      × (s.settle_windows ≡ 0)

  phase_cast :
      (s : ReceiverReadinessTransition) (phase : ReceiverTransitionPhase)
      → s.phase ≡ phase
      → IsConsistent start s
      → PhaseHolds phase s.first_idr_at s.first_rendered_at s.settle_windows
  phase_cast s phase e h =
      subst (λ p. PhaseHolds p s.first_idr_at s.first_rendered_at s.settle_windows) e h.1

  await_render-IsConsistent :
      (now : ℕ) (o : ReceiverReadinessObservation) (s : ReceiverReadinessTransition)
      → Waiting s
      → IsConsistent start (await_render now o s)
  await_render-IsConsistent now o s (t, none_yet, zero_windows) =
      (sooner _ t (omega arith), (tt, none_yet, zero_windows))

  restarted-StageHolds :
      (recovering : Bool) (now : ℕ) (o : ReceiverReadinessObservation)
      (s : ReceiverReadinessTransition)
      → Waiting s
      → StageHolds (count_restart recovering s >>= λ r. ok (await_render now o r))
  restarted-StageHolds false now o s w = await_render-IsConsistent now o s w
  restarted-StageHolds true now o s w =
      if_cases (λ m. StageHolds (m >>= λ r. ok (await_render now o r)))
        (leb receiver_max_settle_restarts s.settle_restart_count)
        (err (fail s receiver_settle_recovery_limit))
        (ok (record s {
          settle_restart_count = count_up32 s.settle_restart_count;
          recovering_after_damage = false;
        }))
        (λ _. (w.0, tt))
        (λ fresh.
          let less : s.settle_restart_count < 1 = leb_false→lt _ _ fresh in
          (record { hard = w.0.hard; inside = omega arith; few = omega arith }, (tt, w.1, w.2)))

  pub idr_in-StageHolds :
      (phase : ReceiverTransitionPhase) (decoded : Bool) (now : ℕ)
      (o : ReceiverReadinessObservation) (s : ReceiverReadinessTransition)
      → s.phase ≡ phase
      → IsConsistent start s
      → StageHolds (idr_in phase decoded now o s)
  idr_in-StageHolds await_first_idr true now o s e h =
      restarted-StageHolds s.recovering_after_damage now o s
        (h.0, (phase_cast s await_first_idr e h).0, (phase_cast s await_first_idr e h).1)
  idr_in-StageHolds await_first_idr false now o s e h = h
  idr_in-StageHolds await_first_rendered_frame decoded now o s e h = h
  idr_in-StageHolds settling decoded now o s e h = h
  idr_in-StageHolds receiver_idle decoded now o s e h = h
  idr_in-StageHolds await_new_session_data decoded now o s e h = h
  idr_in-StageHolds new_session_activated decoded now o s e h = h
  idr_in-StageHolds receiver_committed decoded now o s e h = h
  idr_in-StageHolds receiver_failed decoded now o s e h = h

  pub render_in-IsConsistent :
      (phase : ReceiverTransitionPhase) (rendered : Bool) (now : ℕ)
      (s : ReceiverReadinessTransition)
      → s.phase ≡ phase
      → IsConsistent start s
      → IsConsistent start (render_in phase rendered now s)
  render_in-IsConsistent await_first_rendered_frame true now s e h =
      let (present, _, zero_windows) = phase_cast s await_first_rendered_frame e h in
      (sooner _ h.0 (omega arith), (present, tt, omega arith))
  render_in-IsConsistent await_first_rendered_frame false now s e h = h
  render_in-IsConsistent await_first_idr rendered now s e h = h
  render_in-IsConsistent settling rendered now s e h = h
  render_in-IsConsistent receiver_idle rendered now s e h = h
  render_in-IsConsistent await_new_session_data rendered now s e h = h
  render_in-IsConsistent new_session_activated rendered now s e h = h
  render_in-IsConsistent receiver_committed rendered now s e h = h
  render_in-IsConsistent receiver_failed rendered now s e h = h

  counted_windows-le : (progressing : Bool) (n : ℕ) → n < 3 → counted_windows progressing n ≤ 3
  counted_windows-le true n h = omega arith
  counted_windows-le false n h = omega arith

  settle_with-StageHolds :
      (windows : ℕ) (s : ReceiverReadinessTransition)
      → s.phase ≡ settling
      → windows ≤ 3
      → IsConsistent start s
      → StageHolds (settle_with windows s)
  settle_with-StageHolds windows s e le h =
      let (idr, rendered, _) = phase_cast s settling e h in
      if_cases StageHolds (leb 3 windows)
        (err (record s { settle_windows = windows; phase = receiver_committed }, ready))
        (ok (record s { settle_windows = windows }))
        (λ done. (h.0, (idr, rendered, ground (arith, done, le))))
        (λ more. (
          h.0,
          subst (λ p. PhaseHolds p s.first_idr_at s.first_rendered_at windows) (sym e)
              (idr, rendered, leb_false→lt 3 windows more),
        ))

  pub settle_in-StageHolds :
      (phase : ReceiverTransitionPhase) (o : ReceiverReadinessObservation)
      (s : ReceiverReadinessTransition)
      → s.phase ≡ phase
      → IsConsistent start s
      → StageHolds (settle_in phase o s)
  settle_in-StageHolds settling o s e h =
      settle_with-StageHolds (counted_windows o.progressing s.settle_windows) s e
        (counted_windows-le o.progressing s.settle_windows (phase_cast s settling e h).2) h
  settle_in-StageHolds await_first_rendered_frame o s e h = h
  settle_in-StageHolds await_first_idr o s e h = h
  settle_in-StageHolds receiver_idle o s e h = h
  settle_in-StageHolds await_new_session_data o s e h = h
  settle_in-StageHolds new_session_activated o s e h = h
  settle_in-StageHolds receiver_committed o s e h = h
  settle_in-StageHolds receiver_failed o s e h = h
