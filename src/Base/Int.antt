-- ===== src/Base/Int.antt =====
-- Signed integers over the native numbers. `negsuc n` is -(n + 1).
use Prim.Native.Nat.{ℕ}
use mathlib.Core.Bool.{Bool, false}
use devflow_service.Base.Tests.{ltb, if◌then◌else◌}

pub data ℤ : Type 0 where
  pos : ℕ → ℤ
  negsuc : ℕ → ℤ

-- The test `0 < z`.
abbrev pub is_positive : ℤ → Bool
is_positive (pos n) = ltb 0 n
is_positive (negsuc n) = false

-- The two tests `progress < 0` and `progress > 100` of the code, in their order.
unfoldable pub clamp_percent : ℤ → ℤ
clamp_percent (negsuc n) = pos 0
clamp_percent (pos n) = if ltb 100 n then pos 100 else pos n
