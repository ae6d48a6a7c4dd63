-- ===== src/Prelude/Int.antt =====
-- Signed integers over the native numbers, and `int` as a 32-bit pattern.
use Prim.Native.Nat.{ℕ, ◌+◌, ◌-◌, ◌%◌, ◌<◌, ◌^◌}
use mathlib.Core.Path.{◌≡◌}
use native.Mathlib.Omega.{arith}
use cpptcpmultiplayer.Prelude.Tests.{ltb, leb, if◌then◌else◌}

-- `negsuc n` is -(n + 1).
pub data ℤ : Type 0 where
  pos : ℕ → ℤ
  negsuc : ℕ → ℤ

-- z += n.
unfoldable pub add_points : ℤ → ℕ → ℤ
add_points (pos a) n = pos (a + n)
add_points (negsuc a) n = if leb n a then negsuc (a - n) else pos (n - a - 1)

-- `static_cast<uint32_t>(x)` for an int, and `static_cast<int>(u)` back.
unfoldable pub int_to_u32 : ℤ → ℕ
int_to_u32 (pos n) = n % 2 ^ 32
int_to_u32 (negsuc n) = 2 ^ 32 - 1 - n % 2 ^ 32

unfoldable pub u32_to_int : ℕ → ℤ
u32_to_int u = if ltb u (2 ^ 31) then pos u else negsuc (2 ^ 32 - 1 - u)

-- The values of a 32-bit int.
abbrev pub IsInt : ℤ → Type 0
IsInt (pos n) = n < 2 ^ 31
IsInt (negsuc n) = n < 2 ^ 31

pub u32_to_int-int_to_u32 : (z : ℤ) → IsInt z → u32_to_int (int_to_u32 z) ≡ z
unfolding u32_to_int int_to_u32
u32_to_int-int_to_u32 (pos n) h = ground arith
u32_to_int-int_to_u32 (negsuc n) h = ground arith

pub int_to_u32-lt : (z : ℤ) → int_to_u32 z < 2 ^ 32
unfolding int_to_u32
int_to_u32-lt (pos n) = omega arith
int_to_u32-lt (negsuc n) = omega arith
