-- ===== src/Transition/Protocol/Agreement.antt =====
-- A sender activates only what the receiver accepted.
use agora_link.Prelude.{ℕ}
use mathlib.Core.List.{Memᴰ}
use agora_link.Control.Profile.Change.{ProfileChange}
use agora_link.Transition.{from_change}
use agora_link.Transition.Sender.{key, prepared}
use agora_link.Transition.Receiver.{
  ReceiverProfileController, ReceiverControlDecision, observe_change, sync_active,
  activate_if_pending, expire_change, expire_pending,
}
use agora_link.Transition.Protocol.{
  System, SystemStep, own, hear, arrive, sync, play, expires, initial, Reachable, at_start, after,
}
use agora_link.Transition.Protocol.Memory.{
  AllAccepted, Numbered, Remembers, Agrees, observe_change-Agrees, expire_pending-Remembers,
  activate_pending-Remembers, sync_with-Remembers,
}
use agora_link.Transition.Protocol.Hearing.{
  IsAcknowledged, SenderAgrees, own-SenderAgrees, accepted_ack, hear-SenderAgrees, weaken_sender,
}

abbrev Agreed : System → Type 0
Agreed y =
    Remembers y.receiver y.accepted
    × AllAccepted y.acks y.accepted
    × SenderAgrees y.sender y.accepted

step-Agreed : {y z : System} → SystemStep y z → Agreed y → Agreed z
unfolding sync_active activate_if_pending expire_change
step-Agreed {y} (own e) (r, a, s) = (r, a, own-SenderAgrees y.accepted e s)
step-Agreed {y} (hear ack now m) (r, a, s) =
    (r, a, hear-SenderAgrees y.sender ack now y.accepted (accepted_ack ack y.acks y.accepted m a) s)
step-Agreed {y} (arrive change source pinned now) (r, a, s) =
    let result : ReceiverProfileController × ReceiverControlDecision =
      observe_change y.receiver change source pinned now in
    let agrees : Agrees y.receiver change source pinned now y.acks y.accepted r a result =
      observe_change-Agrees y.receiver change source pinned now y.acks y.accepted r a in
    (agrees.0, agrees.1, weaken_sender y.sender result.1 (from_change change) y.accepted s)
step-Agreed {y} (sync session generation) (r, a, s) = (
  sync_with-Remembers y.receiver.active_session_id y.receiver session generation y.accepted r,
  a,
  s,
)
step-Agreed {y} (play session source now) (r, a, s) =
    let d : ReceiverProfileController = (expire_pending y.receiver.pending y.receiver now).0 in
    let kept : Remembers d y.accepted =
      expire_pending-Remembers y.receiver.pending y.receiver now y.accepted r in
    (activate_pending-Remembers d.pending d session source y.accepted kept.0 kept, a, s)
step-Agreed {y} (expires now) (r, a, s) =
    (expire_pending-Remembers y.receiver.pending y.receiver now y.accepted r, a, s)

Reachable-Agreed : {y z : System} → Reachable y z → Agreed y → Agreed z
Reachable-Agreed at_start h = h
Reachable-Agreed (after r e) h = step-Agreed e (Reachable-Agreed r h)

initial-Agreed : (change : ProfileChange) (now : ℕ) → Agreed (initial change now)
unfolding prepared
initial-Agreed change now = ((tt, tt, tt), tt, λ x. absurd x)

-- In every state that the sender, the receiver and the network reach in which the sender activates the
-- new session, awaits readiness or has committed, it holds a change whose key the receiver accepted;
-- and the keys that the receiver accepted have strictly rising sequence numbers.
pub sender-accepted :
    (change : ProfileChange) (now : ℕ) (y : System)
    → Reachable (initial change now) y
    → IsAcknowledged y.sender.phase
    → Memᴰ (key y.sender) y.accepted × Numbered y.receiver.highest_accepted_sequence y.accepted
sender-accepted change now y r h =
    let (remembers, _, agrees) = Reachable-Agreed r (initial-Agreed change now) in
    (agrees h, remembers.2)
