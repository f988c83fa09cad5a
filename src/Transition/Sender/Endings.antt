-- ===== src/Transition/Sender/Endings.antt =====
-- The transition of the sender ends in time.
use agora_link.Prelude.{
  ℕ, ◌+◌, ◌≤◌, ◌≡◌, refl, Bool, true, false, not, ◌&&◌, leb, le→leb, if_cases, Option, none, some,
  arith,
}
use agora_link.Control.Profile.Change.{ProfileChange}
use agora_link.Transition.{
  profile_transition_total_timeout, receiver_readiness_timeout, profile_control_ack_timeout,
}
use agora_link.Transition.Sender.{
  SenderProfileTransition, prepared, announces, ended_phase, is_over, missed_deadline, end_with,
  check_deadline, awaits_readiness, passed_by,
}
use agora_link.Transition.Sender.Deadlines.{sender-IsInOrder}
use agora_link.Transition.Sender.Steps.{SenderReaches}

ended_over : (at : Option ℕ) → is_over (ended_phase at) ≡ true
ended_over none = refl
ended_over (some n) = refl

over_else : (over late : Bool) → late ≡ true → not over && late ≡ false → over ≡ true
over_else true late l e = refl
over_else false true l e = cc
over_else false false l e = cc

missed-or_over :
    (s : SenderProfileTransition) (now : ℕ)
    → s.total_deadline ≤ now
    → is_over (end_with s (missed_deadline s now)).phase ≡ true
missed-or_over s now late =
    if_cases (λ o. is_over (end_with s o).phase ≡ true)
      (announces s.phase && leb s.ack_deadline now) (some profile_control_ack_timeout) _
      (λ _. ended_over s.ack_received_at)
      (λ _.
        if_cases (λ o. is_over (end_with s o).phase ≡ true)
          (awaits_readiness s.phase && passed_by s.readiness_deadline now)
          (some receiver_readiness_timeout) _ (λ _. ended_over s.ack_received_at)
          (λ _.
            if_cases (λ o. is_over (end_with s o).phase ≡ true)
              (not (is_over s.phase) && leb s.total_deadline now)
              (some profile_transition_total_timeout) none (λ _. ended_over s.ack_received_at)
              (λ e.
                over_else (is_over s.phase) (leb s.total_deadline now)
                  (le→leb s.total_deadline now late) e)))

-- Twelve seconds after it was prepared or later, whatever happened before, a check of the deadlines
-- leaves the transition committed, rolled back or failed.
pub check_deadline-ends :
    (change : ProfileChange) (began : ℕ) (s : SenderProfileTransition) (now : ℕ)
    → SenderReaches (prepared change began) s
    → began + 12000000 ≤ now
    → is_over (check_deadline s now).0.phase ≡ true
unfolding check_deadline
check_deadline-ends change began s now r late =
    let by : s.total_deadline ≡ began + 12000000 = (sender-IsInOrder change began s r).0.over_by in
    missed-or_over s now (omega (arith, by))
