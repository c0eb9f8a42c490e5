-- ===== src/Base/Int.antt =====
-- Go's int, as the scan of brackets in internal/exec/exec.go and the codes of internal/chain/chain.go
-- use it.
use Prim.Native.Nat.{ℕ, suc, ◌+◌, ◌-◌}
use mathlib.Core.Bool.{Bool, true, false}
use sentnodes_agent.Base.Test.{leb, ◌==◌, if◌then◌else◌}

-- The bounds of 64 bits are not reached.
pub data ℤ : Type 0 where
  pos negsuc : ℕ → ℤ

abbrev pub subtract : ℕ → ℕ → ℤ
subtract a b = if leb b a then pos (a - b) else negsuc (b - a - 1)

infixl 60 ◌+ℤ◌
abbrev pub ◌+ℤ◌ : ℤ → ℤ → ℤ
pos a +ℤ pos b = pos (a + b)
pos a +ℤ negsuc b = subtract a (suc b)
negsuc a +ℤ pos b = subtract b (suc a)
negsuc a +ℤ negsuc b = negsuc (suc (a + b))

abbrev pub is_positive : ℤ → Bool
is_positive (pos (suc n)) = true
is_positive _ = false

abbrev pub is_zero : ℤ → Bool
is_zero (pos n) = n == 0
is_zero (negsuc n) = false
