-- ===== src/Base/Integers.antt =====
-- Signed integers of the source.
use Prim.Native.Nat.{ℕ}
use mathlib.Core.Bool.{Bool, false}
use meta_monutchee.Base.Tests.{nat_beq}

-- `pos n` is n and `negsuc n` is -(n + 1)
pub data ℤ : Type 0 where
  pos negsuc : ℕ → ℤ

-- `i == n` for a number n
abbrev pub is_number : ℕ → ℤ → Bool
is_number n (ℤ.pos m) = nat_beq m n
is_number n (ℤ.negsuc m) = false
