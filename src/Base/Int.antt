-- ===== src/Base/Int.antt =====
-- i64 as an integer over the native numbers.
use Prim.Native.Nat.{ℕ, ◌+◌, ◌-◌}
use backbone_events.Base.Tests.{ltb, if◌then◌else◌}

pub data ℤ : Type 0 where
  pos : ℕ → ℤ
  negsuc : ℕ → ℤ

-- m - (n + 1)
abbrev pub minus_suc : ℕ → ℕ → ℤ
minus_suc m n = if ltb n m then pos (m - (n + 1)) else negsuc (n - m)

infixl 50 ◌+ℤ◌
abbrev pub ◌+ℤ◌ : ℤ → ℤ → ℤ
pos m +ℤ pos n = pos (m + n)
pos m +ℤ negsuc n = minus_suc m n
negsuc m +ℤ pos n = minus_suc n m
negsuc m +ℤ negsuc n = negsuc (m + n + 1)
