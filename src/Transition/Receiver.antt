-- ===== src/Transition/Receiver.antt =====
-- `ReceiverProfileController`: which profile changes the receiver accepts, and the session it plays.
pub mod Refusal
use agora_link.Prelude.{
  ℕ, ◌+◌, Bool, true, false, not, ◌||◌, leb, ◌==◌, if◌then◌else◌, count_up, count_up32, Option,
  none, some, is_err,
}
use agora_link.Control.Profile.Change.{ProfileChange, validate}
use agora_link.Control.Profile.Ack.{ProfileAck, accepted}
use agora_link.Transition.{
  ReceiverTransitionPhase, await_new_session_data, new_session_activated, receiver_pending_deadline,
  ProfileControlKey, from_change, same_key,
}

-- A socket address, of which only its equality with another is used: a number for each.
abbrev pub SocketAddr : Type 0
SocketAddr = ℕ

pub record PendingReceiverProfile : Type 0 where
  pub change : ProfileChange
  pub source : SocketAddr
  pub created_at : ℕ
  pub expires_at : ℕ
  pub ack_count : ℕ
  pub phase : ReceiverTransitionPhase

pub record ReceiverProfileControlStats : Type 0 where
  pub mprf_packets_received : ℕ
  pub mprf_ack_packets_sent : ℕ
  pub mprf_duplicate_reacked : ℕ
  pub mprf_pending_expired : ℕ
  pub mprf_rejected_foreign_peer : ℕ
  pub mprf_rejected_old_session : ℕ
  pub mprf_rejected_sequence : ℕ
  pub mprf_rejected_generation : ℕ
  pub mprf_rejected_invalid_fields : ℕ
  pub new_session_activation_count : ℕ

pub data ReceiverControlDecision : Type 0 where
  acknowledge : ProfileAck → ReceiverControlDecision
  reacknowledge : ProfileAck → ReceiverControlDecision
  reject_foreign_peer reject_old_session reject_sequence reject_generation reject_invalid_fields
        reject_pending_conflict :
      ReceiverControlDecision

pub record ReceiverProfileController : Type 0 where
  pub active_session_id : Option ℕ
  pub active_generation : ℕ
  pub highest_accepted_sequence : ℕ
  pub highest_accepted_generation : ℕ
  pub last_committed_key : Option ProfileControlKey
  pub pending : Option PendingReceiverProfile
  pub last_expired_new_session_id : Option ℕ
  pub stats : ReceiverProfileControlStats

-- `ReceiverProfileController::default`
abbrev pub new_controller : ReceiverProfileController
new_controller = record {
  active_session_id = none;
  active_generation = 0;
  highest_accepted_sequence = 0;
  highest_accepted_generation = 0;
  last_committed_key = none;
  pending = none;
  last_expired_new_session_id = none;
  stats = record {
    mprf_packets_received = 0;
    mprf_ack_packets_sent = 0;
    mprf_duplicate_reacked = 0;
    mprf_pending_expired = 0;
    mprf_rejected_foreign_peer = 0;
    mprf_rejected_old_session = 0;
    mprf_rejected_sequence = 0;
    mprf_rejected_generation = 0;
    mprf_rejected_invalid_fields = 0;
    new_session_activation_count = 0;
  };
}

abbrev pub sync_with : Option ℕ → ReceiverProfileController → ℕ → ℕ → ReceiverProfileController
sync_with (some session) c session_id generation = c
sync_with none c session_id generation = record c {
  active_session_id = some session_id;
  active_generation = generation;
  highest_accepted_generation = generation;
}

unfoldable pub sync_active : ReceiverProfileController → ℕ → ℕ → ReceiverProfileController
sync_active c session_id generation = sync_with c.active_session_id c session_id generation

abbrev pub with_stats :
    ReceiverProfileController → ReceiverProfileControlStats → ReceiverProfileController
with_stats c stats = record c { stats = stats }

-- `optional == Some(n)`
abbrev pub holds_number : Option ℕ → ℕ → Bool
holds_number none n = false
holds_number (some m) n = m == n

abbrev pub holds_key : Option ProfileControlKey → ProfileControlKey → Bool
holds_key none k = false
holds_key (some l) k = same_key l k

abbrev pub pending_key : Option PendingReceiverProfile → ProfileControlKey → Bool
pending_key none k = false
pending_key (some p) k = same_key (from_change p.change) k

abbrev pub is_pending : Option PendingReceiverProfile → Bool
is_pending none = false
is_pending (some p) = true

abbrev pub count_mprf : ReceiverProfileControlStats → ReceiverProfileControlStats
count_mprf t = record t { mprf_packets_received = count_up t.mprf_packets_received }

abbrev pub count_invalid_fields : ReceiverProfileControlStats → ReceiverProfileControlStats
count_invalid_fields t = record t {
  mprf_rejected_invalid_fields = count_up t.mprf_rejected_invalid_fields;
}

abbrev pub count_sequence : ReceiverProfileControlStats → ReceiverProfileControlStats
count_sequence t = record t { mprf_rejected_sequence = count_up t.mprf_rejected_sequence }

abbrev pub count_duplicate : ReceiverProfileControlStats → ReceiverProfileControlStats
count_duplicate t = record t { mprf_duplicate_reacked = count_up t.mprf_duplicate_reacked }

abbrev pub count_ack : Option PendingReceiverProfile → Option PendingReceiverProfile
count_ack none = none
count_ack (some p) = some (record p { ack_count = count_up32 p.ack_count })

abbrev accept_change :
    ReceiverProfileController → ProfileChange → SocketAddr → ℕ → ReceiverProfileController
accept_change c change source now = record c {
  highest_accepted_sequence = change.change_sequence;
  highest_accepted_generation = change.profile_generation;
  pending = some (record {
    change = change;
    source = source;
    created_at = now;
    expires_at = now + receiver_pending_deadline;
    ack_count = 1;
    phase = await_new_session_data;
  });
}

-- `observe`, after the packet was counted.
abbrev pub observe_counted :
    ReceiverProfileController
    → ProfileChange
    → SocketAddr
    → Option SocketAddr
    → ℕ
    → ReceiverProfileController × ReceiverControlDecision
observe_counted c change source pinned_peer now =
    let t = c.stats in
    let k = from_change change in
    if is_err (validate change)
    then (with_stats c (count_invalid_fields t), reject_invalid_fields)
    else if not (holds_number pinned_peer source)
    then (
      with_stats c
          (record t { mprf_rejected_foreign_peer = count_up t.mprf_rejected_foreign_peer }),
      reject_foreign_peer,
    )
    else if pending_key c.pending k
    then (
      record c { pending = count_ack c.pending; stats = count_duplicate t },
      reacknowledge (accepted change),
    )
    else if holds_key c.last_committed_key k
    then (with_stats c (count_duplicate t), reacknowledge (accepted change))
    else if not (holds_number c.active_session_id change.old_session_id)
    then (
      with_stats c (record t { mprf_rejected_old_session = count_up t.mprf_rejected_old_session }),
      reject_old_session,
    )
    else if change.change_sequence == 0 || leb change.change_sequence c.highest_accepted_sequence
    then (with_stats c (count_sequence t), reject_sequence)
    else if change.profile_generation == 0
        || leb change.profile_generation c.highest_accepted_generation
    then (
      with_stats c (record t { mprf_rejected_generation = count_up t.mprf_rejected_generation }),
      reject_generation,
    )
    else if is_pending c.pending
    then (with_stats c (count_sequence t), reject_pending_conflict)
    else if holds_number c.last_expired_new_session_id change.new_session_id
    then (with_stats c (count_invalid_fields t), reject_invalid_fields)
    else (accept_change c change source now, acknowledge (accepted change))

unfoldable pub observe_change :
    ReceiverProfileController
    → ProfileChange
    → SocketAddr
    → Option SocketAddr
    → ℕ
    → ReceiverProfileController × ReceiverControlDecision
observe_change c change source pinned_peer now =
    observe_counted (with_stats c (count_mprf c.stats)) change source pinned_peer now

unfoldable record_ack_sent : ReceiverProfileController → ReceiverProfileController
record_ack_sent c =
    with_stats c (record c.stats { mprf_ack_packets_sent = count_up c.stats.mprf_ack_packets_sent })

unfoldable record_invalid_fields : ReceiverProfileController → ReceiverProfileController
record_invalid_fields c = with_stats c (count_invalid_fields (count_mprf c.stats))

abbrev pub expire_pending :
    Option PendingReceiverProfile → ReceiverProfileController → ℕ → ReceiverProfileController × Bool
expire_pending none c now = (c, false)
expire_pending (some p) c now =
    if leb p.expires_at now
    then (
      record c {
        pending = none;
        last_expired_new_session_id = some p.change.new_session_id;
        stats = record c.stats { mprf_pending_expired = count_up c.stats.mprf_pending_expired };
      },
      true,
    )
    else (c, false)

unfoldable pub expire_change : ReceiverProfileController → ℕ → ReceiverProfileController × Bool
expire_change c now = expire_pending c.pending c now

abbrev pub activate_pending :
    Option PendingReceiverProfile
    → ReceiverProfileController
    → ℕ
    → SocketAddr
    → ReceiverProfileController × Option PendingReceiverProfile
activate_pending none c session_id source = (c, none)
activate_pending (some p) c session_id source =
    if not (p.change.new_session_id == session_id) || not (p.source == source) then (c, none) else (
      record c {
        pending = none;
        active_session_id = some p.change.new_session_id;
        active_generation = p.change.profile_generation;
        last_committed_key = some (from_change p.change);
        stats = record c.stats {
          new_session_activation_count = count_up c.stats.new_session_activation_count;
        };
      },
      some (record p { phase = new_session_activated }),
    )

unfoldable pub activate_if_pending :
    ReceiverProfileController
    → ℕ
    → SocketAddr
    → ℕ
    → ReceiverProfileController × Option PendingReceiverProfile
activate_if_pending c session_id source now =
    let d = (expire_change c now).0 in activate_pending d.pending d session_id source
