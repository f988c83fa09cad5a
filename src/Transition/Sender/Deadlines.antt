-- ===== src/Transition/Sender/Deadlines.antt =====
-- What the phases of the sender mean, for any sequence of its operations.
use agora_link.Prelude.{
  ℕ, ◌+◌, ◌≤◌, ◌≡◌, refl, true, not, ◌&&◌, leb, ltb, if_cases, &&-true, not-false, ok-injective,
  Option, none, some, ok, arith,
}
use mathlib.Core.Path.{subst}
use agora_link.Control.Profile.Change.{ProfileChange}
use agora_link.Control.Profile.Ack.{ProfileAck, is_accepted}
use agora_link.Transition.{
  SenderTransitionPhase, idle, control_pending, await_control_ack, activate_new_session,
  await_receiver_readiness, committed, rollback, failed, FailureReason, profile_control_rejected,
  matches_ack,
}
use agora_link.Transition.Sender.{
  SenderProfileTransition, prepared, SenderAckDecision, key, announces, should_send_control,
  record_control_sent, cancel, observe_ack, ack_accepted, ack_rejected, unmatched, activate,
  activate_in, commit, commit_in, missed_deadline, end_with, check_deadline,
}
use agora_link.Transition.Sender.Phases.{PhaseFits, sent_fits, heard_fits, ended_fits}
use agora_link.Transition.Sender.Steps.{
  start, step, sends, hears, activates, commits, checks, cancels, SenderStep, SenderReaches, heard,
  WasHeard, step-WasHeard,
}

-- The change and the deadlines are those of the start, at most ten packets were sent, and the phase
-- says whether the acknowledgement came and whether readiness has a deadline.
pub record IsInOrder (change : ProfileChange) (began : ℕ) (s : SenderProfileTransition)
    : Type 0 where
  pub same_change : s.change ≡ change
  pub ack_by : s.ack_deadline ≡ began + 2500000
  pub over_by : s.total_deadline ≡ began + 12000000
  pub few : s.attempts ≤ 10
  pub fits : PhaseFits s.phase s.ack_received_at s.readiness_deadline s.attempts

module _ (change : ProfileChange) (began : ℕ) where
  prepared-IsInOrder : IsInOrder change began (prepared change began)
  unfolding prepared
  prepared-IsInOrder = record {
    same_change = refl;
    ack_by = refl;
    over_by = refl;
    few = omega arith;
    fits = (tt, tt, refl);
  }

  fits_at :
      (s : SenderProfileTransition) (phase : SenderTransitionPhase)
      → s.phase ≡ phase
      → IsInOrder change began s
      → PhaseFits phase s.ack_received_at s.readiness_deadline s.attempts
  fits_at s phase e h =
      subst (λ p. PhaseFits p s.ack_received_at s.readiness_deadline s.attempts) e h.fits

  end_with-IsInOrder :
      (s : SenderProfileTransition) (o : Option FailureReason)
      → IsInOrder change began s
      → IsInOrder change began (end_with s o)
  end_with-IsInOrder s none h = h
  end_with-IsInOrder s (some reason) h = record {
    same_change = h.same_change;
    ack_by = h.ack_by;
    over_by = h.over_by;
    few = h.few;
    fits = ended_fits s.phase s.ack_received_at s.readiness_deadline s.attempts h.fits;
  }

  sends-IsInOrder :
      (s : SenderProfileTransition) (now : ℕ)
      → should_send_control s now ≡ true
      → IsInOrder change began s
      → IsInOrder change began (record_control_sent s now)
  unfolding should_send_control record_control_sent
  sends-IsInOrder s now e h =
      let (first, _) =
        &&-true (announces s.phase && ltb s.attempts 10 && leb now s.ack_deadline)
          (leb s.next_retry_at now) e in
      let (second, _) =
        &&-true (announces s.phase && ltb s.attempts 10) (leb now s.ack_deadline) first in
      let (announced, fewer) = &&-true (announces s.phase) (ltb s.attempts 10) second in
      record {
        same_change = h.same_change;
        ack_by = h.ack_by;
        over_by = h.over_by;
        few = ground (arith, fewer);
        fits = sent_fits s.phase s.ack_received_at s.readiness_deadline s.attempts announced h.fits;
      }

  cancel-IsInOrder :
      (s : SenderProfileTransition) (reason : FailureReason)
      → IsInOrder change began s
      → IsInOrder change began (cancel s reason)
  unfolding cancel
  cancel-IsInOrder s reason h = end_with-IsInOrder s (some reason) h

  observe_ack-IsInOrder :
      (s : SenderProfileTransition) (a : ProfileAck) (now : ℕ)
      → IsInOrder change began s
      → IsInOrder change began (observe_ack s a now).0
  unfolding observe_ack
  observe_ack-IsInOrder s a now h =
      if_cases (λ (r : SenderProfileTransition × SenderAckDecision). IsInOrder change began r.0)
        (not (matches_ack (key s) a)) (s, unmatched) _ (λ _. h)
        (λ _.
          if_cases (λ (r : SenderProfileTransition × SenderAckDecision). IsInOrder change began r.0)
            (not (announces s.phase)) (s, unmatched) _ (λ _. h)
            (λ heard.
              if_cases
                (λ (r : SenderProfileTransition × SenderAckDecision). IsInOrder change began r.0)
                (not (is_accepted a))
                (cancel s profile_control_rejected, ack_rejected a.reason_code)
                (
                  record s { ack_received_at = some now; phase = activate_new_session },
                  ack_accepted,
                )
                (λ _. cancel-IsInOrder s profile_control_rejected h)
                (λ _. record {
                  same_change = h.same_change;
                  ack_by = h.ack_by;
                  over_by = h.over_by;
                  few = h.few;
                  fits =
                      heard_fits s.phase s.ack_received_at s.readiness_deadline s.attempts now
                        (not-false _ heard) h.fits;
                })))

  activate_in-IsInOrder :
      (phase : SenderTransitionPhase) (s t : SenderProfileTransition) (now : ℕ)
      → s.phase ≡ phase
      → activate_in phase s now ≡ ok t
      → IsInOrder change began s
      → IsInOrder change began t
  activate_in-IsInOrder activate_new_session s t now p e h =
      let fits : PhaseFits activate_new_session s.ack_received_at s.readiness_deadline s.attempts =
        fits_at s activate_new_session p h in
      subst (IsInOrder change began) (ok-injective e) (record {
        same_change = h.same_change;
        ack_by = h.ack_by;
        over_by = h.over_by;
        few = h.few;
        fits = (fits.0, tt, fits.2);
      })
  activate_in-IsInOrder idle s t now p e h = cc
  activate_in-IsInOrder control_pending s t now p e h = cc
  activate_in-IsInOrder await_control_ack s t now p e h = cc
  activate_in-IsInOrder await_receiver_readiness s t now p e h = cc
  activate_in-IsInOrder committed s t now p e h = cc
  activate_in-IsInOrder rollback s t now p e h = cc
  activate_in-IsInOrder failed s t now p e h = cc

  commit_in-IsInOrder :
      (phase : SenderTransitionPhase) (s t : SenderProfileTransition)
      → s.phase ≡ phase
      → commit_in phase s ≡ ok t
      → IsInOrder change began s
      → IsInOrder change began t
  commit_in-IsInOrder await_receiver_readiness s t p e h =
      let fits : PhaseFits await_receiver_readiness s.ack_received_at s.readiness_deadline
          s.attempts =
        fits_at s await_receiver_readiness p h in
      subst (IsInOrder change began) (ok-injective e) (record {
        same_change = h.same_change;
        ack_by = h.ack_by;
        over_by = h.over_by;
        few = h.few;
        fits = fits;
      })
  commit_in-IsInOrder idle s t p e h = cc
  commit_in-IsInOrder control_pending s t p e h = cc
  commit_in-IsInOrder await_control_ack s t p e h = cc
  commit_in-IsInOrder activate_new_session s t p e h = cc
  commit_in-IsInOrder committed s t p e h = cc
  commit_in-IsInOrder rollback s t p e h = cc
  commit_in-IsInOrder failed s t p e h = cc

  step-IsInOrder :
      {s t : SenderProfileTransition}
      → SenderStep s t
      → IsInOrder change began s
      → IsInOrder change began t
  unfolding activate commit check_deadline
  step-IsInOrder {s} (sends now e) h = sends-IsInOrder s now e h
  step-IsInOrder {s} (hears a now) h = observe_ack-IsInOrder s a now h
  step-IsInOrder {s} {t} (activates now e) h = activate_in-IsInOrder s.phase s t now refl e h
  step-IsInOrder {s} {t} (commits e) h = commit_in-IsInOrder s.phase s t refl e h
  step-IsInOrder {s} (checks now) h = end_with-IsInOrder s (missed_deadline s now) h
  step-IsInOrder {s} (cancels reason) h = cancel-IsInOrder s reason h

  reaches-IsInOrder :
      {s t : SenderProfileTransition}
      → SenderReaches s t
      → IsInOrder change began s
      → IsInOrder change began t
  reaches-IsInOrder start h = h
  reaches-IsInOrder (step r e) h = step-IsInOrder e (reaches-IsInOrder r h)

reaches-WasHeard :
    (change : ProfileChange) (began : ℕ) {s : SenderProfileTransition}
    (r : SenderReaches (prepared change began) s)
    → WasHeard change s.ack_received_at (heard r)
unfolding prepared
reaches-WasHeard change began start = tt
reaches-WasHeard change began (step r e) =
    step-WasHeard change e (heard r)
      (reaches-IsInOrder change began r (prepared-IsInOrder change began)).same_change
      (reaches-WasHeard change began r)

pub sender-IsInOrder :
    (change : ProfileChange) (began : ℕ) (s : SenderProfileTransition)
    (r : SenderReaches (prepared change began) s)
    → IsInOrder change began s × WasHeard change s.ack_received_at (heard r)
sender-IsInOrder change began s r = (
  reaches-IsInOrder change began r (prepared-IsInOrder change began),
  reaches-WasHeard change began r,
)
