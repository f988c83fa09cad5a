-- ===== src/Callbacks/Shutdown.antt =====
-- The shutdown and the callbacks, in any interleaving.
use agora_link.Prelude.{
  ℕ, ◌+◌, ◌-◌, ◌^◌, ◌<◌, ◌≡◌, refl, sym, ap, ◌∙◌, Bool, true, false, ==→eq, arith,
}
use mathlib.Core.Path.{subst}
use agora_link.Callbacks.{
  CallbackState, new_barrier, enter_if, try_enter, stop_accepting, is_idle, drop_lease,
}

-- How far `shutdown_callback_source` has come. It removes the handler while it stops, and drains what
-- is pending and closes the session and the pool once it is idle.
pub data Progress : Type 0 where
  untouched stopped idle pending_drained session_closed pool_closed : Progress

-- The gate, the leases that are held, and the shutdown.
pub record Source : Type 0 where
  pub barrier : CallbackState
  pub leases : ℕ
  pub progress : Progress

abbrev pub leases_after : Bool → ℕ → ℕ
leases_after true n = n + 1
leases_after false n = n

-- There are fewer leases than a `usize` counts, each being an object in memory.
pub data SourceStep (s : Source) : Source → Type 0 where
  enters :
      s.leases < 2 ^ 64 - 1
      → SourceStep s (record s {
        barrier = (try_enter s.barrier).0;
        leases = leases_after (try_enter s.barrier).1 s.leases;
      })
  leaves :
      0 < s.leases
      → SourceStep s (record s { barrier = drop_lease s.barrier; leases = s.leases - 1 })
  stops :
      s.progress ≡ untouched
      → SourceStep s (record s { barrier = stop_accepting s.barrier; progress = stopped })
  waits :
      s.progress ≡ stopped → is_idle s.barrier ≡ true → SourceStep s (record s { progress = idle })
  drains : s.progress ≡ idle → SourceStep s (record s { progress = pending_drained })
  closes_session :
      s.progress ≡ pending_drained → SourceStep s (record s { progress = session_closed })
  closes_pool : s.progress ≡ session_closed → SourceStep s (record s { progress = pool_closed })

abbrev pub at_first : Source
at_first = record { barrier = new_barrier; leases = 0; progress = untouched }

pub data Reaches : Source → Type 0 where
  first : Reaches at_first
  next : {s t : Source} → Reaches s → SourceStep s t → Reaches t

-- The shutdown has waited for the leases.
abbrev IsClosing : Progress → Type 0
IsClosing untouched = ⊥
IsClosing stopped = ⊥
IsClosing p = Unit

abbrev ProgressFits : Progress → Bool → ℕ → Type 0
ProgressFits untouched accepting leases = Unit
ProgressFits stopped accepting leases = accepting ≡ false
ProgressFits p accepting leases = (accepting ≡ false) × (leases ≡ 0)

-- The gate counts the leases.
abbrev Fits : Source → Type 0
Fits s =
    (s.barrier.in_flight ≡ s.leases)
    × (s.leases < 2 ^ 64)
    × ProgressFits s.progress s.barrier.accepting s.leases

true-false : true ≡ false → ⊥
true-false h = cc

entered-fits :
    (p : Progress) (s : CallbackState) (accepting : Bool) (leases : ℕ)
    → s.accepting ≡ accepting
    → s.in_flight ≡ leases
    → leases < 2 ^ 64 - 1
    → ProgressFits p accepting leases
    → ((enter_if accepting s).0.in_flight ≡ leases_after (enter_if accepting s).1 leases)
      × (leases_after (enter_if accepting s).1 leases < 2 ^ 64)
      × ProgressFits p
          (enter_if accepting s).0.accepting
          (leases_after (enter_if accepting s).1 leases)
entered-fits p s false leases a e lt h =
    (e, omega arith, subst (λ b. ProgressFits p b leases) (sym a) h)
entered-fits untouched s true leases a e lt h = (omega (arith, e), omega arith, tt)
entered-fits stopped s true leases a e lt h = cc
entered-fits idle s true leases a e lt h = absurd (true-false h.0)
entered-fits pending_drained s true leases a e lt h = absurd (true-false h.0)
entered-fits session_closed s true leases a e lt h = absurd (true-false h.0)
entered-fits pool_closed s true leases a e lt h = absurd (true-false h.0)

left_fits :
    (p : Progress) (accepting : Bool) (leases : ℕ)
    → ProgressFits p accepting leases
    → ProgressFits p accepting (leases - 1)
left_fits untouched accepting leases h = tt
left_fits stopped accepting leases h = h
left_fits idle accepting leases h = (h.0, omega (arith, h.1))
left_fits pending_drained accepting leases h = (h.0, omega (arith, h.1))
left_fits session_closed accepting leases h = (h.0, omega (arith, h.1))
left_fits pool_closed accepting leases h = (h.0, omega (arith, h.1))

Fits-at :
    (s : Source) (p : Progress)
    → s.progress ≡ p
    → Fits s
    → ProgressFits p s.barrier.accepting s.leases
Fits-at s p e h = subst (λ q. ProgressFits q s.barrier.accepting s.leases) e h.2

step-Fits : {s t : Source} → SourceStep s t → Fits s → Fits t
unfolding try_enter stop_accepting is_idle drop_lease
step-Fits {s} (enters lt) h =
    entered-fits s.progress s.barrier s.barrier.accepting s.leases refl h.0 lt h.2
step-Fits {s} (leaves pos) h =
    (omega (arith, h.0), omega (arith, h.1), left_fits s.progress s.barrier.accepting s.leases h.2)
step-Fits {s} (stops e) h = (h.0, h.1, refl)
step-Fits {s} (waits e none_left) h =
    (h.0, h.1, (Fits-at s stopped e h, sym h.0 ∙ ==→eq s.barrier.in_flight 0 none_left))
step-Fits {s} (drains e) h = (h.0, h.1, Fits-at s idle e h)
step-Fits {s} (closes_session e) h = (h.0, h.1, Fits-at s pending_drained e h)
step-Fits {s} (closes_pool e) h = (h.0, h.1, Fits-at s session_closed e h)

Reaches-Fits : {s : Source} → Reaches s → Fits s
Reaches-Fits first = (refl, omega arith, tt)
Reaches-Fits (next r e) = step-Fits e (Reaches-Fits r)

closed :
    (p : Progress) (accepting : Bool) (leases : ℕ)
    → IsClosing p
    → ProgressFits p accepting leases
    → (accepting ≡ false) × (leases ≡ 0)
closed idle accepting leases c h = h
closed pending_drained accepting leases c h = h
closed session_closed accepting leases c h = h
closed pool_closed accepting leases c h = h
closed untouched accepting leases c h = absurd c
closed stopped accepting leases c h = absurd c

-- In any interleaving of callbacks with the shutdown, once the shutdown has waited for the leases no
-- callback holds a lease and none can get one: what is drained and closed is in use by none.
pub closing-alone :
    (s : Source)
    → Reaches s
    → IsClosing s.progress
    → (s.leases ≡ 0) × ((try_enter s.barrier).1 ≡ false)
unfolding try_enter
closing-alone s r c =
    let (shut, none_left) = closed s.progress s.barrier.accepting s.leases c (Reaches-Fits r).2 in
    (none_left, ap (λ b. (enter_if b s.barrier).1) shut)
