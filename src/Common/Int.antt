-- ===== src/Common/Int.antt =====
-- Signed machine integers, and their cast to u32.
use Prim.Native.Nat.{ℕ, ◌-◌, ◌%◌}
use substrate_node_template.Common.Tests.{u32_values}

-- `negsuc n` is -(n + 1).
pub data ℤ : Type 0 where
  pos : ℕ → ℤ
  negsuc : ℕ → ℤ

-- `as u32` keeps the low 32 bits of the two's complement.
abbrev pub int_as_u32 : ℤ → ℕ
int_as_u32 (pos n) = n % u32_values
int_as_u32 (negsuc n) = u32_values - 1 - n % u32_values
