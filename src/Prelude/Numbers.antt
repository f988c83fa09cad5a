-- ===== src/Prelude/Numbers.antt =====
-- Saturating counters, and facts about products that `omega` does not find.
use Prim.Native.Nat.{ℕ, ◌+◌, ◌-◌, ◌*◌, ◌^◌, ◌≤◌, min}
use native.Mathlib.Omega.{arith}

-- `u64::saturating_add(1)`
abbrev pub count_up : ℕ → ℕ
count_up n = min (n + 1) (2 ^ 64 - 1)

-- `u32::saturating_add(1)`
abbrev pub count_up32 : ℕ → ℕ
count_up32 n = min (n + 1) (2 ^ 32 - 1)

pub mul_mono : (a b p : ℕ) → a ≤ b → a * p ≤ b * p
mul_mono a b p h = grind arith
