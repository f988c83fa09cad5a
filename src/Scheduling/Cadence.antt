-- ===== src/Scheduling/Cadence.antt =====
-- `DeadlineCadence`, whose times are u64 nanoseconds.
use agora_link.Prelude.{
  ℕ, ◌+◌, ◌-◌, ◌≡◌, ◌≤◌, min, ltb, ◌==◌, if◌then◌else◌, Result, ok, err, arith,
}
use agora_link.Repair.{u64_max}

pub record DeadlineCadence : Type 0 where
  pub interval_ns : ℕ
  pub next_ns : ℕ

data CadenceError : Type 0 where
  zero_interval : CadenceError

unfoldable new_cadence : ℕ → Result CadenceError DeadlineCadence
new_cadence interval =
    let interval_ns = min interval u64_max in
    if interval_ns == 0
    then err zero_interval
    else ok (record { interval_ns = interval_ns; next_ns = 0 })

-- The state is brought up to `now_ns`, and the deadline is where it then stands.
abbrev caught_up : DeadlineCadence → ℕ → ℕ
caught_up c now_ns = if ltb c.next_ns now_ns then now_ns else c.next_ns

unfoldable pub next_deadline_ns : DeadlineCadence → ℕ → DeadlineCadence × ℕ
next_deadline_ns c now_ns =
    let deadline = caught_up c now_ns in
    (record c { next_ns = min (deadline + c.interval_ns) u64_max }, deadline)

caught_up-bounds :
    (c : DeadlineCadence) (now : ℕ)
    → (now ≤ caught_up c now)
      × (c.next_ns ≤ caught_up c now)
      × (caught_up c now ≤ now + (c.next_ns - now))
caught_up-bounds c now = ground arith

-- Of two deadlines in a row, each is not before its clock, and they are at least an interval apart,
-- where the first one leaves room for an interval below 2^64.
pub next_deadline_ns-apart :
    (c : DeadlineCadence) (t u : ℕ)
    → (next_deadline_ns c t).1 + c.interval_ns ≤ u64_max
    → (t ≤ (next_deadline_ns c t).1)
      × (u ≤ (next_deadline_ns (next_deadline_ns c t).0 u).1)
      × ((next_deadline_ns c t).1 + c.interval_ns ≤ (next_deadline_ns (next_deadline_ns c t).0 u).1)
unfolding next_deadline_ns
next_deadline_ns-apart c t u room =
    let (now, next, upto) = caught_up-bounds c t in
    let (now', next', upto') = caught_up-bounds (next_deadline_ns c t).0 u in
    (now, now', omega (arith, next', room))

-- After a stall no debt is made up for: where the clock is at or past the next deadline, the deadline is
-- the clock, and the one after it is a full interval later, as long as the clock is not past that.
pub next_deadline_ns-resumes :
    (c : DeadlineCadence) (t u : ℕ)
    → t + c.interval_ns ≤ u64_max
    → c.next_ns ≤ t
    → u ≤ t + c.interval_ns
    → ((next_deadline_ns c t).1 ≡ t)
      × ((next_deadline_ns (next_deadline_ns c t).0 u).1 ≡ t + c.interval_ns)
unfolding next_deadline_ns
next_deadline_ns-resumes c t u room late soon =
    let (now, next, upto) = caught_up-bounds c t in
    let (now', next', upto') = caught_up-bounds (next_deadline_ns c t).0 u in
    (omega arith, omega arith)
