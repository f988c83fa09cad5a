-- ===== src/Transition/Protocol.antt =====
-- The sender, the receiver and the network between them, as one step relation. The network loses,
-- repeats and reorders acknowledgements, and brings the receiver any change at all, forged ones too;
-- it does not forge acknowledgements.
pub mod Memory
pub mod Hearing
pub mod Agreement
use agora_link.Prelude.{ℕ, ◌≡◌, List, [], ◌∷◌, Bool, true, Option, none, some, ok}
use mathlib.Core.List.{Memᴰ}
use agora_link.Control.Profile.Change.{ProfileChange}
use agora_link.Control.Profile.Ack.{ProfileAck}
use agora_link.Transition.{ProfileControlKey, from_change, FailureReason}
use agora_link.Transition.Sender.{SenderProfileTransition, prepared}
use agora_link.Transition.Sender.Steps.{SenderStep}
use agora_link.Transition.Sender
use agora_link.Transition.Receiver.{
  ReceiverProfileController, ReceiverControlDecision, acknowledge, reacknowledge, SocketAddr,
  observe_change, sync_active, activate_if_pending, expire_change, new_controller,
}

-- `acks` are the acknowledgements that were sent, `accepted` the keys of the changes that the receiver
-- acknowledged for the first time, the last one first.
pub record System : Type 0 where
  pub sender : SenderProfileTransition
  pub receiver : ReceiverProfileController
  pub acks : List ProfileAck
  pub accepted : List ProfileControlKey

abbrev pub sent_acks : ReceiverControlDecision → List ProfileAck → List ProfileAck
sent_acks (acknowledge a) acks = a ∷ acks
sent_acks (reacknowledge a) acks = a ∷ acks
sent_acks d acks = acks

abbrev pub accepted_keys :
    ReceiverControlDecision → ProfileControlKey → List ProfileControlKey → List ProfileControlKey
accepted_keys (acknowledge a) k keys = k ∷ keys
accepted_keys d k keys = keys

-- The receiver answers a change.
abbrev pub answered :
    System → ProfileChange → ReceiverProfileController × ReceiverControlDecision → System
answered y change (c, d) = record y {
  receiver = c;
  acks = sent_acks d y.acks;
  accepted = accepted_keys d (from_change change) y.accepted;
}

-- What the sender does without the network: all its operations but hearing an acknowledgement.
pub data OwnStep (s : SenderProfileTransition) : SenderProfileTransition → Type 0 where
  sends :
      (now : ℕ)
      → Sender.should_send_control s now ≡ true
      → OwnStep s (Sender.record_control_sent s now)
  activates : (now : ℕ) {t : SenderProfileTransition} → Sender.activate s now ≡ ok t → OwnStep s t
  commits : {t : SenderProfileTransition} → Sender.commit s ≡ ok t → OwnStep s t
  checks : (now : ℕ) → OwnStep s (Sender.check_deadline s now).0
  cancels : (reason : FailureReason) → OwnStep s (Sender.cancel s reason)

pub data SystemStep (y : System) : System → Type 0 where
  own : {t : SenderProfileTransition} → OwnStep y.sender t → SystemStep y (record y { sender = t })
  hear :
      (a : ProfileAck) (now : ℕ)
      → Memᴰ a y.acks
      → SystemStep y (record y { sender = (Sender.observe_ack y.sender a now).0 })
  arrive :
      (change : ProfileChange) (source : SocketAddr) (pinned : Option SocketAddr) (now : ℕ)
      → SystemStep y (answered y change (observe_change y.receiver change source pinned now))
  sync :
      (session generation : ℕ)
      → SystemStep y (record y { receiver = sync_active y.receiver session generation })
  play :
      (session : ℕ) (source : SocketAddr) (now : ℕ)
      → SystemStep y (record y { receiver = (activate_if_pending y.receiver session source now).0 })
  expires : (now : ℕ) → SystemStep y (record y { receiver = (expire_change y.receiver now).0 })

-- A sender that prepared a change, before a receiver that was just created.
abbrev pub initial : ProfileChange → ℕ → System
initial change now = record {
  sender = prepared change now;
  receiver = new_controller;
  acks = [];
  accepted = [];
}

pub data Reachable (y : System) : System → Type 0 where
  at_start : Reachable y y
  after : {u v : System} → Reachable y u → SystemStep u v → Reachable y v
