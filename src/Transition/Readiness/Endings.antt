-- ===== src/Transition/Readiness/Endings.antt =====
-- The readiness of the receiver ends in time.
use agora_link.Prelude.{
  ℕ, ◌+◌, ◌≤◌, ◌≡◌, ◌≢◌, refl, sym, List, true, leb, le→leb, ltb, if_cases, arith,
}
use mathlib.Core.Path.{subst}
use agora_link.Transition.{
  ReceiverTransitionPhase, receiver_idle, await_new_session_data, new_session_activated,
  await_first_idr, await_first_rendered_frame, settling, receiver_committed, receiver_failed,
}
use agora_link.Transition.Readiness.{
  ReceiverReadinessTransition, ReceiverReadinessObservation, pending, begin_readiness, note_damage,
  note_damage_in, observe_stages, observe_in, observe_readiness,
}
use agora_link.Transition.Readiness.Deadlines.{
  observe_readiness_all, observe_readiness-IsConsistent,
}

abbrev pub IsEnded : ReceiverTransitionPhase → Type 0
IsEnded receiver_committed = Unit
IsEnded receiver_failed = Unit
IsEnded phase = ⊥

note_damage_in-overall :
    (phase : ReceiverTransitionPhase) (s : ReceiverReadinessTransition) (now : ℕ)
    (o : ReceiverReadinessObservation)
    → (note_damage_in phase s now o).overall_deadline ≡ s.overall_deadline
note_damage_in-overall await_first_rendered_frame s now o = refl
note_damage_in-overall settling s now o = refl
note_damage_in-overall await_first_idr s now o = refl
note_damage_in-overall receiver_idle s now o = refl
note_damage_in-overall await_new_session_data s now o = refl
note_damage_in-overall new_session_activated s now o = refl
note_damage_in-overall receiver_committed s now o = refl
note_damage_in-overall receiver_failed s now o = refl

note_damage-overall :
    (s : ReceiverReadinessTransition) (now : ℕ) (o : ReceiverReadinessObservation)
    → (note_damage s now o).overall_deadline ≡ s.overall_deadline
note_damage-overall s now o =
    if_cases (λ u. u.overall_deadline ≡ s.overall_deadline)
      (ltb s.last_damaged_gop_total o.damaged_gop_total) (note_damage_in s.phase s now o) s
      (λ _. note_damage_in-overall s.phase s now o) (λ _. refl)

module _ (s : ReceiverReadinessTransition) (now : ℕ) (o : ReceiverReadinessObservation)
    (late : s.overall_deadline ≤ now) where
  observe_stages-late :
      IsEnded (observe_stages s now o).0.phase × ((observe_stages s now o).1 ≢ pending)
  observe_stages-late =
      let test : leb (note_damage s now o).overall_deadline now ≡ true =
        le→leb (note_damage s now o).overall_deadline now (rw (note_damage-overall s now o) late) in
      rw (test) (tt, λ h. cc)

  observe_in-late :
      (phase : ReceiverTransitionPhase)
      → s.phase ≡ phase
      → IsEnded (observe_in phase s now o).0.phase × ((observe_in phase s now o).1 ≢ pending)
  observe_in-late receiver_committed e = (subst IsEnded (sym e) tt, λ h. cc)
  observe_in-late receiver_failed e = (subst IsEnded (sym e) tt, λ h. cc)
  observe_in-late await_first_idr e = observe_stages-late
  observe_in-late await_first_rendered_frame e = observe_stages-late
  observe_in-late settling e = observe_stages-late
  observe_in-late receiver_idle e = observe_stages-late
  observe_in-late await_new_session_data e = observe_stages-late
  observe_in-late new_session_activated e = observe_stages-late

-- Whatever was observed before, an observation eight seconds after the start or later finds the
-- transition committed or failed: it never answers that it is pending.
pub observe_readiness-ends :
    (start rendered damaged : ℕ) (observations : List (ℕ × ReceiverReadinessObservation)) (now : ℕ)
    (o : ReceiverReadinessObservation)
    → start + 8000000 ≤ now
    → IsEnded
        (observe_readiness
          (observe_readiness_all (begin_readiness start rendered damaged) observations)
          now
          o).0.phase
      × ((observe_readiness
            (observe_readiness_all (begin_readiness start rendered damaged) observations)
            now
            o).1
          ≢ pending)
unfolding observe_readiness
observe_readiness-ends start rendered damaged observations now o late =
    let s : ReceiverReadinessTransition =
      observe_readiness_all (begin_readiness start rendered damaged) observations in
    let hard : s.overall_deadline ≡ start + 8000000 =
      (observe_readiness-IsConsistent start rendered damaged observations).0.hard in
    observe_in-late s now o (omega (arith, hard)) s.phase refl
