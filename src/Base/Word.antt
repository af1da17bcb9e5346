-- ===== src/Base/Word.antt =====
-- Machine words as native numbers: the moduli, and the wrapping operations of the source's types.
use Prim.Native.Nat.{ℕ, ◌^◌, bit_and}
use mathlib.Core.Bool.{Bool}
use redshift.Base.Tests.{◌==◌}

abbrev pub u16_mod : ℕ
u16_mod = 2 ^ 16

abbrev pub u32_mod : ℕ
u32_mod = 2 ^ 32

abbrev pub u64_mod : ℕ
u64_mod = 2 ^ 64

-- `TEST_FLAG(VAR, FLAG)` of include/libk/kmacro.h.
abbrev pub test_flag : ℕ → ℕ → Bool
test_flag var flag = bit_and var flag == flag
