-- ===== src/Transition/Protocol/Memory.antt =====
-- What the receiver holds is a change that it accepted.
use agora_link.Prelude.{
  ℕ, ◌<◌, ◌≡◌, refl, List, [], ◌∷◌, Bool, true, not, ◌&&◌, ◌||◌, &&-true, ◌==◌, ==→eq, leb,
  leb_false→lt, if_cases, Option, none, some, is_err, arith,
}
use mathlib.Core.List.{Memᴰ}
use mathlib.Core.Path.{subst}
use agora_link.Control.Fields.{or-false}
use agora_link.Control.Profile.Change.{ProfileChange, validate}
use agora_link.Control.Profile.Ack.{ProfileAck}
use agora_link.Transition.{ProfileControlKey, from_change, same_key}
use agora_link.Transition.Receiver.{
  ReceiverProfileController, ReceiverControlDecision, PendingReceiverProfile, with_stats,
  holds_number, holds_key, pending_key, is_pending, count_mprf, count_ack, observe_counted,
  observe_change, sync_with, activate_pending, expire_pending, SocketAddr,
}
use agora_link.Transition.Protocol.{sent_acks, accepted_keys}

-- The key that an acknowledgement names.
abbrev pub ack_key : ProfileAck → ProfileControlKey
ack_key a = record {
  old_session_id = a.old_session_id;
  new_session_id = a.new_session_id;
  change_sequence = a.change_sequence;
  profile_generation = a.profile_generation;
}

pub key_path : (k l : ProfileControlKey) → same_key k l ≡ true → k ≡ l
key_path k l e =
    let (three, generation) =
      &&-true
        (k.old_session_id == l.old_session_id
          && k.new_session_id == l.new_session_id
          && k.change_sequence == l.change_sequence)
        (k.profile_generation == l.profile_generation) e in
    let (two, sequence) =
      &&-true (k.old_session_id == l.old_session_id && k.new_session_id == l.new_session_id)
        (k.change_sequence == l.change_sequence) three in
    let (old, new) =
      &&-true (k.old_session_id == l.old_session_id) (k.new_session_id == l.new_session_id) two in
    λ i. record {
      old_session_id = ==→eq k.old_session_id l.old_session_id old i;
      new_session_id = ==→eq k.new_session_id l.new_session_id new i;
      change_sequence = ==→eq k.change_sequence l.change_sequence sequence i;
      profile_generation = ==→eq k.profile_generation l.profile_generation generation i;
    }

abbrev pub AllAccepted : List ProfileAck → List ProfileControlKey → Type 0
AllAccepted [] keys = Unit
AllAccepted (a ∷ acks) keys = Memᴰ (ack_key a) keys × AllAccepted acks keys

abbrev PendingAccepted : Option PendingReceiverProfile → List ProfileControlKey → Type 0
PendingAccepted none keys = Unit
PendingAccepted (some p) keys = Memᴰ (from_change p.change) keys

abbrev KeyAccepted : Option ProfileControlKey → List ProfileControlKey → Type 0
KeyAccepted none keys = Unit
KeyAccepted (some k) keys = Memᴰ k keys

-- The sequence numbers fall from `n` on.
abbrev Falls : ℕ → List ProfileControlKey → Type 0
Falls n [] = Unit
Falls n (k ∷ keys) = (k.change_sequence < n) × Falls k.change_sequence keys

-- The first key, which was accepted last, has the highest sequence number.
abbrev pub Numbered : ℕ → List ProfileControlKey → Type 0
Numbered highest [] = Unit
Numbered highest (k ∷ keys) = (highest ≡ k.change_sequence) × Falls k.change_sequence keys

raise :
    (highest n : ℕ) (keys : List ProfileControlKey)
    → highest < n
    → Numbered highest keys
    → Falls n keys
raise highest n [] lt h = tt
raise highest n (k ∷ keys) lt h = (omega (arith, h.0), h.1)

-- What the receiver holds was accepted.
abbrev pub Remembers : ReceiverProfileController → List ProfileControlKey → Type 0
Remembers c keys =
    PendingAccepted c.pending keys
    × KeyAccepted c.last_committed_key keys
    × Numbered c.highest_accepted_sequence keys

weaken_acks :
    (acks : List ProfileAck) (k : ProfileControlKey) (keys : List ProfileControlKey)
    → AllAccepted acks keys
    → AllAccepted acks (k ∷ keys)
weaken_acks [] k keys h = tt
weaken_acks (a ∷ acks) k keys h = (Memᴰ.tail h.0, weaken_acks acks k keys h.1)

weaken_key :
    (o : Option ProfileControlKey) (k : ProfileControlKey) (keys : List ProfileControlKey)
    → KeyAccepted o keys
    → KeyAccepted o (k ∷ keys)
weaken_key none k keys h = tt
weaken_key (some l) k keys h = Memᴰ.tail h

counted_pending :
    (o : Option PendingReceiverProfile) (keys : List ProfileControlKey)
    → PendingAccepted o keys
    → PendingAccepted (count_ack o) keys
counted_pending none keys h = tt
counted_pending (some p) keys h = h

pending_holds :
    (o : Option PendingReceiverProfile) (k : ProfileControlKey) (keys : List ProfileControlKey)
    → pending_key o k ≡ true
    → PendingAccepted o keys
    → Memᴰ k keys
pending_holds none k keys e h = cc
pending_holds (some p) k keys e h = subst (λ l. Memᴰ l keys) (key_path (from_change p.change) k e) h

committed_holds :
    (o : Option ProfileControlKey) (k : ProfileControlKey) (keys : List ProfileControlKey)
    → holds_key o k ≡ true
    → KeyAccepted o keys
    → Memᴰ k keys
committed_holds none k keys e h = cc
committed_holds (some l) k keys e h = subst (λ l. Memᴰ l keys) (key_path l k e) h

module _ (c : ReceiverProfileController) (change : ProfileChange) (source : SocketAddr)
    (pinned : Option SocketAddr) (now : ℕ) (acks : List ProfileAck) (keys : List ProfileControlKey)
    (r : Remembers c keys) (all : AllAccepted acks keys) where
  abbrev pub Agrees : ReceiverProfileController × ReceiverControlDecision → Type 0
  Agrees (d, decision) =
      Remembers d (accepted_keys decision (from_change change) keys)
      × AllAccepted (sent_acks decision acks) (accepted_keys decision (from_change change) keys)

  observe_counted-Agrees : Agrees (observe_counted c change source pinned now)
  observe_counted-Agrees =
      let k : ProfileControlKey = from_change change in
      if_cases Agrees (is_err (validate change)) _ _ (λ _. (r, all))
        (λ _.
          if_cases Agrees (not (holds_number pinned source)) _ _ (λ _. (r, all))
            (λ _.
              if_cases Agrees (pending_key c.pending k) _ _
                (λ same. (
                  (counted_pending c.pending keys r.0, r.1, r.2),
                  (pending_holds c.pending k keys same r.0, all),
                ))
                (λ _.
                  if_cases Agrees (holds_key c.last_committed_key k) _ _
                    (λ same. (r, (committed_holds c.last_committed_key k keys same r.1, all)))
                    (λ _.
                      if_cases Agrees (not (holds_number c.active_session_id change.old_session_id))
                        _ _ (λ _. (r, all))
                        (λ _.
                          if_cases Agrees
                            (change.change_sequence == 0
                              || leb change.change_sequence c.highest_accepted_sequence)
                            _ _ (λ _. (r, all))
                            (λ newer.
                              if_cases Agrees
                                (change.profile_generation == 0
                                  || leb change.profile_generation c.highest_accepted_generation)
                                _ _ (λ _. (r, all))
                                (λ _.
                                  if_cases Agrees (is_pending c.pending) _ _ (λ _. (r, all))
                                    (λ _.
                                      if_cases Agrees
                                        (holds_number c.last_expired_new_session_id
                                          change.new_session_id)
                                        _ _ (λ _. (r, all))
                                        (λ _. (
                                          (
                                            Memᴰ.head refl,
                                            weaken_key c.last_committed_key k keys r.1,
                                            (
                                              refl,
                                              raise c.highest_accepted_sequence
                                                  change.change_sequence keys
                                                  (leb_false→lt change.change_sequence
                                                    c.highest_accepted_sequence
                                                    (or-false (change.change_sequence == 0) _
                                                      newer).1)
                                                  r.2,
                                            ),
                                          ),
                                          (Memᴰ.head refl, weaken_acks acks k keys all),
                                        ))))))))))

pub observe_change-Agrees :
    (c : ReceiverProfileController) (change : ProfileChange) (source : SocketAddr)
    (pinned : Option SocketAddr) (now : ℕ) (acks : List ProfileAck) (keys : List ProfileControlKey)
    (r : Remembers c keys) (all : AllAccepted acks keys)
    → Agrees c change source pinned now acks keys r all (observe_change c change source pinned now)
unfolding observe_change
observe_change-Agrees c change source pinned now acks keys r all =
    observe_counted-Agrees (with_stats c (count_mprf c.stats)) change source pinned now acks keys r
      all

pub expire_pending-Remembers :
    (o : Option PendingReceiverProfile) (c : ReceiverProfileController) (now : ℕ)
    (keys : List ProfileControlKey)
    → Remembers c keys
    → Remembers (expire_pending o c now).0 keys
expire_pending-Remembers none c now keys r = r
expire_pending-Remembers (some p) c now keys r =
    if_cases (λ (d : ReceiverProfileController × Bool). Remembers d.0 keys) (leb p.expires_at now) _
      _ (λ _. (tt, r.1, r.2)) (λ _. r)

pub activate_pending-Remembers :
    (o : Option PendingReceiverProfile) (c : ReceiverProfileController) (session : ℕ)
    (source : SocketAddr) (keys : List ProfileControlKey)
    → PendingAccepted o keys
    → Remembers c keys
    → Remembers (activate_pending o c session source).0 keys
activate_pending-Remembers none c session source keys p r = r
activate_pending-Remembers (some q) c session source keys p r =
    if_cases (λ (d : ReceiverProfileController × Option PendingReceiverProfile). Remembers d.0 keys)
      (not (q.change.new_session_id == session) || not (q.source == source)) _ _ (λ _. r)
      (λ _. (tt, p, r.2))

pub sync_with-Remembers :
    (o : Option ℕ) (c : ReceiverProfileController) (session generation : ℕ)
    (keys : List ProfileControlKey)
    → Remembers c keys
    → Remembers (sync_with o c session generation) keys
sync_with-Remembers none c session generation keys r = r
sync_with-Remembers (some s) c session generation keys r = r
