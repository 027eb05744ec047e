-- ===== src/Prelude/Words.antt =====
-- uint32_t and size_t arithmetic: a value is a native number below the modulus.
use Prim.Native.Nat.{ℕ, ◌+◌, ◌-◌, ◌%◌, ◌<◌}
use mathlib.Core.Path.{◌≡◌}
use native.Mathlib.Omega.{arith}

abbrev pub u32_mod : ℕ
u32_mod = 0x1_0000_0000

abbrev pub IsU32 : ℕ → Type 0
IsU32 n = n < u32_mod

-- uint32_t a + b and a - b, for operands of that type or wider
unfoldable pub add32 : ℕ → ℕ → ℕ
add32 a b = (a + b) % u32_mod

unfoldable pub sub32 : ℕ → ℕ → ℕ
sub32 a b = (a + (u32_mod - b % u32_mod)) % u32_mod

pub add32-IsU32 : (a b : ℕ) → IsU32 (add32 a b)
unfolding add32
add32-IsU32 a b = omega arith

pub sub32-IsU32 : (a b : ℕ) → IsU32 (sub32 a b)
unfolding sub32
sub32-IsU32 a b = omega arith

pub add32_assoc : (a b c : ℕ) → add32 (add32 a b) c ≡ add32 a (b + c)
unfolding add32
add32_assoc a b c = omega arith

pub add32-zero : (a : ℕ) → IsU32 a → add32 a 0 ≡ a
unfolding add32
add32-zero a h = omega arith

-- a + (b - a) = b
pub add32-sub32 : (a b : ℕ) → IsU32 b → add32 a (sub32 b a) ≡ b
unfolding add32 sub32
add32-sub32 a b h = omega arith
