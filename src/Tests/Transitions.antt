-- ===== src/Tests/Transitions.antt =====
-- A change of profile on small runs.
use agora_link.Prelude.{ℕ, ◌≡◌, ◌≢◌, refl, List, [], ◌∷◌, true, some, guarded, arith}
use mathlib.Core.List.{Memᴰ}
use agora_link.Tests.Controls.{to_720p}
use agora_link.Control.Profile.Ack.{accepted}
use agora_link.Transition.Readiness.{
  ReceiverReadinessObservation, observe_readiness, begin_readiness, pending, ready,
}
use agora_link.Transition.Readiness.Stages.{IsConsistent}
use agora_link.Transition.Readiness.Deadlines.{
  observe_readiness_all, observe_readiness-IsConsistent,
}
use agora_link.Transition.Readiness.Endings.{IsEnded, observe_readiness-ends}
use agora_link.Transition.Sender.{
  SenderProfileTransition, prepared, should_send_control, record_control_sent, observe_ack, is_over,
  check_deadline, key,
}
use agora_link.Transition.Sender.Steps.{SenderReaches}
use agora_link.Transition.Sender.Endings.{check_deadline-ends}
use agora_link.Transition.Sender.Steps as Steps
use agora_link.Transition.Receiver.{
  ReceiverProfileController, new_controller, sync_active, observe_change,
}
use agora_link.Transition.Receiver.Refusal.{Answered, observe_change-answers}
use agora_link.Transition.Protocol.{
  System, initial, Reachable, at_start, after, answered, own, hear, arrive, sync, sends,
}
use agora_link.Transition.Protocol.Memory.{Numbered}
use agora_link.Transition.Protocol.Hearing.{IsAcknowledged}
use agora_link.Transition.Protocol.Agreement.{sender-accepted}

-- A key frame was decoded and frames are rendered.
abbrev playing : ℕ → ReceiverReadinessObservation
playing rendered = record {
  first_idr_decoded = true;
  render_initialized = true;
  frames_rendered_total = rendered;
  progressing = true;
  damaged_gop_total = 0;
}

abbrev four_windows : List (ℕ × ReceiverReadinessObservation)
four_windows = (1000, playing 0) ∷ (2000, playing 1) ∷ (3000, playing 2) ∷ (4000, playing 3) ∷ []

-- The third window of progress commits.
four_windows-ready :
    (observe_readiness
      (observe_readiness_all
        (begin_readiness 0 0 0)
        ((1000, playing 0) ∷ (2000, playing 1) ∷ (3000, playing 2) ∷ []))
      4000
      (playing 3)).1
    ≡ ready
unfolding observe_readiness begin_readiness
four_windows-ready = refl

observe_readiness-IsConsistent_example :
    IsConsistent 0 (observe_readiness_all (begin_readiness 0 0 0) four_windows)
observe_readiness-IsConsistent_example = observe_readiness-IsConsistent 0 0 0 four_windows

observe_readiness-ends_example :
    IsEnded
      (observe_readiness
        (observe_readiness_all (begin_readiness 0 0 0) ((1000, playing 0) ∷ []))
        8000000
        (playing 0)).0.phase
    × ((observe_readiness
          (observe_readiness_all (begin_readiness 0 0 0) ((1000, playing 0) ∷ []))
          8000000
          (playing 0)).1
        ≢ pending)
observe_readiness-ends_example =
    observe_readiness-ends 0 0 0 ((1000, playing 0) ∷ []) 8000000 (playing 0) (omega arith)

may_send : should_send_control (prepared to_720p 0) 10 ≡ true
unfolding should_send_control prepared
may_send = refl

abbrev asked : SenderProfileTransition
asked = record_control_sent (prepared to_720p 0) 10

asked-SenderReaches : SenderReaches (prepared to_720p 0) (observe_ack asked (accepted to_720p) 20).0
asked-SenderReaches =
    SenderReaches.step (SenderReaches.step SenderReaches.start (Steps.sends 10 may_send))
      (Steps.hears (accepted to_720p) 20)

check_deadline-ends_example :
    is_over (check_deadline (observe_ack asked (accepted to_720p) 20).0 12000000).0.phase ≡ true
check_deadline-ends_example =
    check_deadline-ends to_720p 0 (observe_ack asked (accepted to_720p) 20).0 12000000
      asked-SenderReaches (omega arith)

abbrev session_seven : ReceiverProfileController
session_seven = sync_active new_controller 7 1

observe_change-answers_example :
    Answered session_seven to_720p 44
      (some 44)
      15
      (observe_change session_seven to_720p 44 (some 44) 15)
observe_change-answers_example = observe_change-answers session_seven to_720p 44 (some 44) 15

abbrev synced : System
synced = record (initial to_720p 0) { receiver = session_seven }

abbrev requested : System
requested = record synced { sender = asked }

abbrev answered_request : System
answered_request = answered requested to_720p (observe_change session_seven to_720p 44 (some 44) 15)

answered_request-acks : answered_request.acks ≡ accepted to_720p ∷ []
unfolding observe_change sync_active guarded
answered_request-acks = refl

acknowledged : Memᴰ (accepted to_720p) answered_request.acks
acknowledged = rw (answered_request-acks) (Memᴰ.head refl)

abbrev activating : System
activating = record answered_request { sender = (observe_ack asked (accepted to_720p) 20).0 }

activating-Reachable : Reachable (initial to_720p 0) activating
activating-Reachable =
    after
      (after (after (after at_start (sync 7 1)) (own (sends 10 may_send)))
        (arrive to_720p 44 (some 44) 15))
      (hear (accepted to_720p) 20 acknowledged)

activating-IsAcknowledged : IsAcknowledged activating.sender.phase
unfolding observe_ack record_control_sent prepared
activating-IsAcknowledged = tt

sender-accepted_example :
    Memᴰ (key activating.sender) activating.accepted
    × Numbered activating.receiver.highest_accepted_sequence activating.accepted
sender-accepted_example =
    sender-accepted to_720p 0 activating activating-Reachable activating-IsAcknowledged
