-- ===== src/Common/Word.antt =====
-- Go's fixed-width unsigned integers: the value with its wrap-around written out.
use Prim.Native.Nat.{ℕ, ◌+◌, ◌-◌, ◌%◌}

abbrev pub u32_mod : ℕ
u32_mod = 4294967296

-- The conversion `uint32(n)`, and what an uint32 operation keeps of its result.
abbrev pub u32 : ℕ → ℕ
u32 n = n % u32_mod

-- uint32 a + b and a - b. Both operands are below the modulus.
abbrev pub add_u32 : ℕ → ℕ → ℕ
add_u32 a b = (a + b) % u32_mod

abbrev pub sub_u32 : ℕ → ℕ → ℕ
sub_u32 a b = (a + u32_mod - b) % u32_mod
