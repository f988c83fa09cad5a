-- ===== src/Transition/Receiver/Refusal.antt =====
-- When the receiver accepts a change, and that any other answer leaves its session as it was.
use agora_link.Prelude.{
  ℕ, ◌+◌, ◌<◌, ◌≡◌, refl, ap, true, false, not, ◌||◌, leb, leb_false→lt, ◌==◌, ==→eq, not-false,
  if_cases, count_up, Option, none, some, Result, ok, err, is_err,
}
use agora_link.Control.Fields.{or-false}
use agora_link.Control.Profile.Change.{ProfileChange, validate}
use agora_link.Control.Profile.Ack.{ProfileAck, accepted}
use agora_link.Transition.{from_change, ReceiverTransitionPhase, await_new_session_data}
use agora_link.Transition.Receiver.{
  ReceiverProfileController, ReceiverProfileControlStats, ReceiverControlDecision,
  PendingReceiverProfile, SocketAddr, acknowledge, with_stats, holds_number, holds_key, pending_key,
  is_pending, count_mprf, count_invalid_fields, count_sequence, count_duplicate, count_ack,
  observe_counted, observe_change,
}

-- A pending change, but for the count of its acknowledgements.
abbrev pending_change :
    Option PendingReceiverProfile
    → Option (ProfileChange × SocketAddr × ℕ × ℕ × ReceiverTransitionPhase)
pending_change none = none
pending_change (some p) = some (p.change, p.source, p.created_at, p.expires_at, p.phase)

-- All but the counters is as it was.
abbrev IsUnmoved : ReceiverProfileController → ReceiverProfileController → Type 0
IsUnmoved c d =
    (d.active_session_id ≡ c.active_session_id)
    × (d.active_generation ≡ c.active_generation)
    × (d.highest_accepted_sequence ≡ c.highest_accepted_sequence)
    × (d.highest_accepted_generation ≡ c.highest_accepted_generation)
    × (d.last_committed_key ≡ c.last_committed_key)
    × (d.last_expired_new_session_id ≡ c.last_expired_new_session_id)
    × (pending_change d.pending ≡ pending_change c.pending)

-- What an accepted change satisfies, and what its acceptance does.
abbrev IsAcceptance :
    ReceiverProfileController
    → ProfileChange
    → SocketAddr
    → Option SocketAddr
    → ℕ
    → ReceiverProfileController
    → ProfileAck
    → Type 0
IsAcceptance c change source pinned now d a =
    (a ≡ accepted change)
    × (validate change ≡ ok tt)
    × (pinned ≡ some source)
    × (c.active_session_id ≡ some change.old_session_id)
    × (c.highest_accepted_sequence < change.change_sequence)
    × (c.highest_accepted_generation < change.profile_generation)
    × (c.pending ≡ none)
    × (d.highest_accepted_sequence ≡ change.change_sequence)
    × (d.highest_accepted_generation ≡ change.profile_generation)
    × (d.active_session_id ≡ c.active_session_id)
    × (d.active_generation ≡ c.active_generation)
    × (d.last_committed_key ≡ c.last_committed_key)
    × (d.last_expired_new_session_id ≡ c.last_expired_new_session_id)
    × (pending_change d.pending ≡ some (change, source, now, now + 3000000, await_new_session_data))

count_ack-change :
    (p : Option PendingReceiverProfile) → pending_change (count_ack p) ≡ pending_change p
count_ack-change none = refl
count_ack-change (some p) = refl

holds_number-eq : (o : Option ℕ) (n : ℕ) → holds_number o n ≡ true → o ≡ some n
holds_number-eq none n h = cc
holds_number-eq (some m) n h = ap some (==→eq m n h)

not_pending : (p : Option PendingReceiverProfile) → is_pending p ≡ false → p ≡ none
not_pending none h = refl
not_pending (some p) h = cc

valid_result : {E : Type 0} (r : Result E Unit) → is_err r ≡ false → r ≡ ok tt
valid_result (ok tt) h = refl
valid_result (err e) h = cc

validated : (change : ProfileChange) → is_err (validate change) ≡ false → validate change ≡ ok tt
validated change h = valid_result (validate change) h

module _ (c : ReceiverProfileController) (change : ProfileChange) (source : SocketAddr)
    (pinned : Option SocketAddr) (now : ℕ) where
  -- What is claimed of an answer.
  abbrev pub Answered : ReceiverProfileController × ReceiverControlDecision → Type 0
  Answered (d, acknowledge a) = IsAcceptance c change source pinned now d a
  Answered (d, decision) = IsUnmoved c d

  unmoved : (t : ReceiverProfileControlStats) → IsUnmoved c (with_stats c t)
  unmoved t = (refl, refl, refl, refl, refl, refl, refl)

  observe_counted-Answered : Answered (observe_counted c change source pinned now)
  observe_counted-Answered =
      let t : ReceiverProfileControlStats = c.stats in
      if_cases Answered (is_err (validate change)) _ _ (λ _. unmoved (count_invalid_fields t))
        (λ valid.
          if_cases Answered (not (holds_number pinned source)) _ _
            (λ _.
              unmoved
                (record t { mprf_rejected_foreign_peer = count_up t.mprf_rejected_foreign_peer }))
            (λ peer.
              if_cases Answered (pending_key c.pending (from_change change)) _ _
                (λ _. (refl, refl, refl, refl, refl, refl, count_ack-change c.pending))
                (λ _.
                  if_cases Answered (holds_key c.last_committed_key (from_change change)) _ _
                    (λ _. unmoved (count_duplicate t))
                    (λ _.
                      if_cases Answered
                        (not (holds_number c.active_session_id change.old_session_id)) _ _
                        (λ _. unmoved (record t {
                          mprf_rejected_old_session = count_up t.mprf_rejected_old_session;
                        }))
                        (λ old.
                          if_cases Answered
                            (change.change_sequence == 0
                              || leb change.change_sequence c.highest_accepted_sequence)
                            _ _ (λ _. unmoved (count_sequence t))
                            (λ newer.
                              if_cases Answered
                                (change.profile_generation == 0
                                  || leb change.profile_generation c.highest_accepted_generation)
                                _ _
                                (λ _. unmoved (record t {
                                  mprf_rejected_generation = count_up t.mprf_rejected_generation;
                                }))
                                (λ later.
                                  if_cases Answered (is_pending c.pending) _ _
                                    (λ _. unmoved (count_sequence t))
                                    (λ free.
                                      if_cases Answered
                                        (holds_number c.last_expired_new_session_id
                                          change.new_session_id)
                                        _ _ (λ _. unmoved (count_invalid_fields t))
                                        (λ _. (
                                          refl,
                                          validated change valid,
                                          holds_number-eq pinned source (not-false _ peer),
                                          holds_number-eq c.active_session_id change.old_session_id
                                              (not-false _ old),
                                          leb_false→lt change.change_sequence
                                              c.highest_accepted_sequence
                                              (or-false (change.change_sequence == 0) _ newer).1,
                                          leb_false→lt change.profile_generation
                                              c.highest_accepted_generation
                                              (or-false (change.profile_generation == 0) _ later).1,
                                          not_pending c.pending free,
                                          refl,
                                          refl,
                                          refl,
                                          refl,
                                          refl,
                                          refl,
                                          refl,
                                        ))))))))))

-- A change that the receiver acknowledges for the first time is valid, comes from the pinned peer, is
-- for the active session, has a larger sequence number and a larger generation than every one accepted
-- before, and finds no other change pending; it is then pending for three seconds and waits for data
-- of the new session, its numbers are the highest, and what is active, was committed and expired last
-- is as it was. After any other answer, the repeated acknowledgement of a change among them, all but
-- the counters is as it was, the pending change and its times and phase included.
pub observe_change-answers :
    (c : ReceiverProfileController) (change : ProfileChange) (source : SocketAddr)
    (pinned : Option SocketAddr) (now : ℕ)
    → Answered c change source pinned now (observe_change c change source pinned now)
unfolding observe_change
observe_change-answers c change source pinned now =
    observe_counted-Answered (with_stats c (count_mprf c.stats)) change source pinned now
