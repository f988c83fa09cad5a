-- ===== src/Transition/Protocol/Hearing.antt =====
-- What the sender activates is a change that the receiver acknowledged.
use agora_link.Prelude.{
  ℕ, ◌≡◌, refl, sym, List, [], ◌∷◌, not, not-false, if_cases, Option, none, some, ok, ok-injective,
}
use mathlib.Core.List.{Memᴰ}
use mathlib.Core.Path.{subst}
use mathlib.Core.List.Memᴰ
use agora_link.Control.Profile.Ack.{ProfileAck, is_accepted}
use agora_link.Transition.{
  ProfileControlKey, matches_ack, FailureReason, SenderTransitionPhase, idle, control_pending,
  await_control_ack, activate_new_session, await_receiver_readiness, committed, rollback, failed,
  profile_control_rejected,
}
use agora_link.Transition.Sender.{
  SenderProfileTransition, SenderAckDecision, key, announces, observe_ack, activate, activate_in,
  commit, commit_in, cancel, check_deadline, end_with, missed_deadline, record_control_sent,
  ended_phase,
}
use agora_link.Transition.Receiver.{
  ReceiverControlDecision, acknowledge, reacknowledge, reject_foreign_peer, reject_old_session,
  reject_sequence, reject_generation, reject_invalid_fields, reject_pending_conflict,
}
use agora_link.Transition.Protocol.{
  accepted_keys, OwnStep, sends, activates, commits, checks, cancels,
}
use agora_link.Transition.Protocol.Memory.{ack_key, key_path, AllAccepted}

-- The phases after an acknowledgement.
abbrev pub IsAcknowledged : SenderTransitionPhase → Type 0
IsAcknowledged activate_new_session = Unit
IsAcknowledged await_receiver_readiness = Unit
IsAcknowledged committed = Unit
IsAcknowledged phase = ⊥

abbrev pub SenderAgrees : SenderProfileTransition → List ProfileControlKey → Type 0
SenderAgrees s keys = IsAcknowledged s.phase → Memᴰ (key s) keys

ended_unacknowledged : (at : Option ℕ) → IsAcknowledged (ended_phase at) → ⊥
ended_unacknowledged none h = h
ended_unacknowledged (some n) h = h

end_with-SenderAgrees :
    (s : SenderProfileTransition) (o : Option FailureReason) (keys : List ProfileControlKey)
    → SenderAgrees s keys
    → SenderAgrees (end_with s o) keys
end_with-SenderAgrees s none keys h = h
end_with-SenderAgrees s (some reason) keys h =
    λ x. absurd (ended_unacknowledged s.ack_received_at x)

activate_in-SenderAgrees :
    (phase : SenderTransitionPhase) (s t : SenderProfileTransition) (now : ℕ)
    (keys : List ProfileControlKey)
    → s.phase ≡ phase
    → activate_in phase s now ≡ ok t
    → SenderAgrees s keys
    → SenderAgrees t keys
activate_in-SenderAgrees activate_new_session s t now keys p e h =
    subst (λ u. SenderAgrees u keys) (ok-injective e) (λ _. h (subst IsAcknowledged (sym p) tt))
activate_in-SenderAgrees idle s t now keys p e h = cc
activate_in-SenderAgrees control_pending s t now keys p e h = cc
activate_in-SenderAgrees await_control_ack s t now keys p e h = cc
activate_in-SenderAgrees await_receiver_readiness s t now keys p e h = cc
activate_in-SenderAgrees committed s t now keys p e h = cc
activate_in-SenderAgrees rollback s t now keys p e h = cc
activate_in-SenderAgrees failed s t now keys p e h = cc

commit_in-SenderAgrees :
    (phase : SenderTransitionPhase) (s t : SenderProfileTransition) (keys : List ProfileControlKey)
    → s.phase ≡ phase
    → commit_in phase s ≡ ok t
    → SenderAgrees s keys
    → SenderAgrees t keys
commit_in-SenderAgrees await_receiver_readiness s t keys p e h =
    subst (λ u. SenderAgrees u keys) (ok-injective e) (λ _. h (subst IsAcknowledged (sym p) tt))
commit_in-SenderAgrees idle s t keys p e h = cc
commit_in-SenderAgrees control_pending s t keys p e h = cc
commit_in-SenderAgrees await_control_ack s t keys p e h = cc
commit_in-SenderAgrees activate_new_session s t keys p e h = cc
commit_in-SenderAgrees committed s t keys p e h = cc
commit_in-SenderAgrees rollback s t keys p e h = cc
commit_in-SenderAgrees failed s t keys p e h = cc

pub own-SenderAgrees :
    {s t : SenderProfileTransition} (keys : List ProfileControlKey)
    → OwnStep s t
    → SenderAgrees s keys
    → SenderAgrees t keys
unfolding activate commit cancel check_deadline record_control_sent
own-SenderAgrees keys (sends now e) h = λ x. absurd x
own-SenderAgrees {s} {t} keys (activates now e) h =
    activate_in-SenderAgrees s.phase s t now keys refl e h
own-SenderAgrees {s} {t} keys (commits e) h = commit_in-SenderAgrees s.phase s t keys refl e h
own-SenderAgrees {s} keys (checks now) h = end_with-SenderAgrees s (missed_deadline s now) keys h
own-SenderAgrees {s} keys (cancels reason) h = end_with-SenderAgrees s (some reason) keys h

pub accepted_ack :
    (a : ProfileAck) (acks : List ProfileAck) (keys : List ProfileControlKey)
    → Memᴰ a acks
    → AllAccepted acks keys
    → Memᴰ (ack_key a) keys
accepted_ack a [] keys m h = absurd (Memᴰ.not-nil m)
accepted_ack a (b ∷ acks) keys (Memᴰ.head e) h = subst (λ c. Memᴰ (ack_key c) keys) (sym e) h.0
accepted_ack a (b ∷ acks) keys (Memᴰ.tail m) h = accepted_ack a acks keys m h.1

pub hear-SenderAgrees :
    (s : SenderProfileTransition) (a : ProfileAck) (now : ℕ) (keys : List ProfileControlKey)
    → Memᴰ (ack_key a) keys
    → SenderAgrees s keys
    → SenderAgrees (observe_ack s a now).0 keys
unfolding observe_ack cancel
hear-SenderAgrees s a now keys m h =
    if_cases (λ (r : SenderProfileTransition × SenderAckDecision). SenderAgrees r.0 keys)
      (not (matches_ack (key s) a)) _ _ (λ _. h)
      (λ same.
        if_cases (λ (r : SenderProfileTransition × SenderAckDecision). SenderAgrees r.0 keys)
          (not (announces s.phase)) _ _ (λ _. h)
          (λ _.
            if_cases (λ (r : SenderProfileTransition × SenderAckDecision). SenderAgrees r.0 keys)
              (not (is_accepted a)) _ _
              (λ _. end_with-SenderAgrees s (some profile_control_rejected) keys h)
              (λ _ _.
                subst (λ k. Memᴰ k keys) (sym (key_path (key s) (ack_key a) (not-false _ same)))
                  m)))

pub weaken_sender :
    (s : SenderProfileTransition) (d : ReceiverControlDecision) (k : ProfileControlKey)
    (keys : List ProfileControlKey)
    → SenderAgrees s keys
    → SenderAgrees s (accepted_keys d k keys)
weaken_sender s (acknowledge a) k keys h = λ x. Memᴰ.tail (h x)
weaken_sender s (reacknowledge a) k keys h = h
weaken_sender s reject_foreign_peer k keys h = h
weaken_sender s reject_old_session k keys h = h
weaken_sender s reject_sequence k keys h = h
weaken_sender s reject_generation k keys h = h
weaken_sender s reject_invalid_fields k keys h = h
weaken_sender s reject_pending_conflict k keys h = h
