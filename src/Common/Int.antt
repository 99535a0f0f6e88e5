-- ===== src/Common/Int.antt =====
-- Signed integers over the native numbers: Go's `int`, `int64` and `time.Duration`, whose ranges
-- none of the modelled sums leaves.
use Prim.Native.Nat.{ℕ, ◌-◌}
use mathlib.Core.Bool.{Bool, false}
use ya_router.Common.Tests.{ltb, leb, if◌then◌else◌}

-- `negsuc n` is -(n + 1).
pub data ℤ : Type 0 where
  pos : ℕ → ℤ
  negsuc : ℕ → ℤ

-- a - b, as an integer.
abbrev pub sub_ℕ : ℕ → ℕ → ℤ
sub_ℕ a b = if leb b a then pos (a - b) else negsuc (b - a - 1)

-- z > n
abbrev pub exceeds : ℤ → ℕ → Bool
exceeds (pos z) n = ltb n z
exceeds (negsuc z) n = false

abbrev pub pos_part : ℤ → ℕ
pos_part (pos n) = n
pos_part (negsuc n) = 0
