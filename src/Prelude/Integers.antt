-- ===== src/Prelude/Integers.antt =====
-- The integers over the native numbers, and the signed difference of two times.
use Prim.Native.Nat.{ℕ, ◌-◌}
use go_b2bua.Prelude.Tests.{ltb, if◌then◌else◌}

-- a number, or the number below its negative
pub data ℤ : Type 0 where
  pos negsuc : ℕ → ℤ

-- `a - b`
abbrev pub minus : ℕ → ℕ → ℤ
minus a b = if ltb a b then negsuc (b - a - 1) else pos (a - b)
