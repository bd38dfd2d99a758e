-- ===== src/Common/Int.antt =====
-- The integers that scripts return and that timestamps differ by.
use Prim.Native.Nat.{ℕ, ◌-◌}
use package.dk_server_foundation.Common.Tests.{if◌then◌else◌, leb}

-- `negsuc n` is -(n + 1).
pub data ℤ : Type 0 where
  pos : ℕ → ℤ
  negsuc : ℕ → ℤ

-- a - b, as an integer.
unfoldable pub sub_ℕ : ℕ → ℕ → ℤ
sub_ℕ a b = if leb b a then pos (a - b) else negsuc (b - a - 1)
