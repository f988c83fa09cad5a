-- ===== src/Callbacks.antt =====
-- The gate of rust-native/agoralink_media/src/callback_lifecycle.rs: callbacks of the capture source hold
-- a lease while they run, and the shutdown waits for all leases before it closes the source. Each
-- operation holds the gate's mutex, so it is one step; a poisoned mutex is entered all the same.
pub mod Shutdown
use agora_link.Prelude.{
  ℕ, ◌+◌, ◌-◌, ◌^◌, min, List, [], ◌∷◌, ◌++◌, Bool, true, false, ◌==◌, Option, none, some, Result,
  ok, err,
}

pub record CallbackState : Type 0 where
  pub accepting : Bool
  pub in_flight : ℕ

-- `CallbackBarrier::new`
abbrev pub new_barrier : CallbackState
new_barrier = record { accepting = true; in_flight = 0 }

abbrev pub enter_if : Bool → CallbackState → CallbackState × Bool
enter_if false s = (s, false)
enter_if true s = (record s { in_flight = min (s.in_flight + 1) (2 ^ 64 - 1) }, true)

-- `try_enter`: the state, and whether a lease was given.
unfoldable pub try_enter : CallbackState → CallbackState × Bool
try_enter s = enter_if s.accepting s

unfoldable pub stop_accepting : CallbackState → CallbackState
stop_accepting s = record s { accepting = false }

-- The test of the loop of `wait_until_idle`, which returns when it holds.
unfoldable pub is_idle : CallbackState → Bool
is_idle s = s.in_flight == 0

-- `CallbackLease::drop`
unfoldable pub drop_lease : CallbackState → CallbackState
drop_lease s = record s { in_flight = s.in_flight - 1 }

module _ {E : Type 0} where
  abbrev pub errors_of : List (Result E Unit) → List E
  errors_of [] = []
  errors_of (ok u ∷ results) = errors_of results
  errors_of (err e ∷ results) = e ∷ errors_of results

  abbrev pub joined_errors : List E → Result (List E) Unit
  joined_errors [] = ok tt
  joined_errors (e ∷ errors) = err (e ∷ errors)

  -- What `shutdown_callback_source` returns, by the results of its four closures, all of which it runs.
  unfoldable pub shutdown_result :
      Result E Unit → Result E Unit → Result E Unit → Result E Unit → Result (List E) Unit
  shutdown_result remove_handler drain_pending close_session close_pool =
      joined_errors (errors_of (remove_handler ∷ drain_pending ∷ close_session ∷ close_pool ∷ []))
