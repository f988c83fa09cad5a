-- ===== src/Transition/Sender/Steps.antt =====
-- The steps of the sender, and the acknowledgements that it hears on the way.
use agora_link.Prelude.{
  ℕ, ◌≡◌, refl, List, [], ◌∷◌, true, not, if_cases, not-false, ok-injective, Option, none, some, ok,
}
use mathlib.Core.Path.{subst}
use mathlib.Core.List.{Memᴰ}
use agora_link.Control.Profile.Change.{ProfileChange}
use agora_link.Control.Profile.Ack.{ProfileAck, is_accepted}
use agora_link.Transition.{
  SenderTransitionPhase, idle, control_pending, await_control_ack, activate_new_session,
  await_receiver_readiness, committed, rollback, failed, FailureReason, matches_ack, from_change,
}
use agora_link.Transition.Sender.{
  SenderProfileTransition, SenderAckDecision, key, announces, should_send_control,
  record_control_sent, cancel, observe_ack, activate, activate_in, commit, commit_in,
  missed_deadline, end_with, check_deadline,
}

-- An operation of the sender; control is sent only when `should_send_control` says so.
pub data SenderStep (s : SenderProfileTransition) : SenderProfileTransition → Type 0 where
  sends : (now : ℕ) → should_send_control s now ≡ true → SenderStep s (record_control_sent s now)
  hears : (a : ProfileAck) (now : ℕ) → SenderStep s (observe_ack s a now).0
  activates : (now : ℕ) {t : SenderProfileTransition} → activate s now ≡ ok t → SenderStep s t
  commits : {t : SenderProfileTransition} → commit s ≡ ok t → SenderStep s t
  checks : (now : ℕ) → SenderStep s (check_deadline s now).0
  cancels : (reason : FailureReason) → SenderStep s (cancel s reason)

pub data SenderReaches (s : SenderProfileTransition) : SenderProfileTransition → Type 0 where
  start : SenderReaches s s
  step : {t u : SenderProfileTransition} → SenderReaches s t → SenderStep t u → SenderReaches s u

-- The acknowledgements that were heard, the last one first, each with the time of its hearing.
abbrev heard_by_step :
    {s t : SenderProfileTransition} → SenderStep s t → List (ProfileAck × ℕ) → List (ProfileAck × ℕ)
heard_by_step (sends now e) acks = acks
heard_by_step (hears a now) acks = (a, now) ∷ acks
heard_by_step (activates now e) acks = acks
heard_by_step (commits e) acks = acks
heard_by_step (checks now) acks = acks
heard_by_step (cancels reason) acks = acks

abbrev pub heard : {s t : SenderProfileTransition} → SenderReaches s t → List (ProfileAck × ℕ)
heard start = []
heard (step r e) = heard_by_step e (heard r)

-- A time of acknowledgement is that at which an acknowledgement of the change was heard that matches its
-- key and accepts it.
abbrev pub WasHeard : ProfileChange → Option ℕ → List (ProfileAck × ℕ) → Type 0
WasHeard change none acks = Unit
WasHeard change (some at) acks =
    (a : ProfileAck) × Memᴰ (a, at) acks
    × (matches_ack (from_change change) a ≡ true)
    × (is_accepted a ≡ true)

-- What was heard stays heard.
module _ (change : ProfileChange) where
  more-WasHeard :
      (o : Option ℕ) (b : ProfileAck × ℕ) (acks : List (ProfileAck × ℕ))
      → WasHeard change o acks
      → WasHeard change o (b ∷ acks)
  more-WasHeard none b acks h = tt
  more-WasHeard (some at) b acks (a, m, same, agreed) = (a, Memᴰ.tail m, same, agreed)

  end_with-WasHeard :
      (s : SenderProfileTransition) (o : Option FailureReason) (acks : List (ProfileAck × ℕ))
      → WasHeard change s.ack_received_at acks
      → WasHeard change (end_with s o).ack_received_at acks
  end_with-WasHeard s none acks h = h
  end_with-WasHeard s (some reason) acks h = h

  observe_ack-WasHeard :
      (s : SenderProfileTransition) (a : ProfileAck) (now : ℕ) (acks : List (ProfileAck × ℕ))
      → s.change ≡ change
      → WasHeard change s.ack_received_at acks
      → WasHeard change (observe_ack s a now).0.ack_received_at ((a, now) ∷ acks)
  unfolding observe_ack cancel
  observe_ack-WasHeard s a now acks same h =
      let Heard : SenderProfileTransition × SenderAckDecision → Type 0 =
        λ r. WasHeard change r.0.ack_received_at ((a, now) ∷ acks) in
      let kept : WasHeard change s.ack_received_at ((a, now) ∷ acks) =
        more-WasHeard s.ack_received_at (a, now) acks h in
      if_cases Heard (not (matches_ack (key s) a)) _ _ (λ _. kept)
        (λ matched.
          if_cases Heard (not (announces s.phase)) _ _ (λ _. kept)
            (λ _.
              if_cases Heard (not (is_accepted a)) _ _ (λ _. kept)
                (λ agreed. (
                  a,
                  Memᴰ.head refl,
                  subst (λ c. matches_ack (from_change c) a ≡ true) same (not-false _ matched),
                  not-false _ agreed,
                ))))

  activate_in-WasHeard :
      (phase : SenderTransitionPhase) (s t : SenderProfileTransition) (now : ℕ)
      (acks : List (ProfileAck × ℕ))
      → activate_in phase s now ≡ ok t
      → WasHeard change s.ack_received_at acks
      → WasHeard change t.ack_received_at acks
  activate_in-WasHeard activate_new_session s t now acks e h =
      subst (λ (u : SenderProfileTransition). WasHeard change u.ack_received_at acks)
        (ok-injective e) h
  activate_in-WasHeard idle s t now acks e h = cc
  activate_in-WasHeard control_pending s t now acks e h = cc
  activate_in-WasHeard await_control_ack s t now acks e h = cc
  activate_in-WasHeard await_receiver_readiness s t now acks e h = cc
  activate_in-WasHeard committed s t now acks e h = cc
  activate_in-WasHeard rollback s t now acks e h = cc
  activate_in-WasHeard failed s t now acks e h = cc

  commit_in-WasHeard :
      (phase : SenderTransitionPhase) (s t : SenderProfileTransition) (acks : List (ProfileAck × ℕ))
      → commit_in phase s ≡ ok t
      → WasHeard change s.ack_received_at acks
      → WasHeard change t.ack_received_at acks
  commit_in-WasHeard await_receiver_readiness s t acks e h =
      subst (λ (u : SenderProfileTransition). WasHeard change u.ack_received_at acks)
        (ok-injective e) h
  commit_in-WasHeard idle s t acks e h = cc
  commit_in-WasHeard control_pending s t acks e h = cc
  commit_in-WasHeard await_control_ack s t acks e h = cc
  commit_in-WasHeard activate_new_session s t acks e h = cc
  commit_in-WasHeard committed s t acks e h = cc
  commit_in-WasHeard rollback s t acks e h = cc
  commit_in-WasHeard failed s t acks e h = cc

  pub step-WasHeard :
      {s t : SenderProfileTransition} (e : SenderStep s t) (acks : List (ProfileAck × ℕ))
      → s.change ≡ change
      → WasHeard change s.ack_received_at acks
      → WasHeard change t.ack_received_at (heard_by_step e acks)
  unfolding activate commit check_deadline record_control_sent cancel
  step-WasHeard (sends now e) acks same h = h
  step-WasHeard {s} (hears a now) acks same h = observe_ack-WasHeard s a now acks same h
  step-WasHeard {s} {t} (activates now e) acks same h =
      activate_in-WasHeard s.phase s t now acks e h
  step-WasHeard {s} {t} (commits e) acks same h = commit_in-WasHeard s.phase s t acks e h
  step-WasHeard {s} (checks now) acks same h = end_with-WasHeard s (missed_deadline s now) acks h
  step-WasHeard {s} (cancels reason) acks same h = end_with-WasHeard s (some reason) acks h
