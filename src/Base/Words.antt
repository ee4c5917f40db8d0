-- ===== src/Base/Words.antt =====
-- Fixed-width words as numbers: casts, and the arithmetic of `uint32_t` and `size_t` (32 bits wide
-- here) with its wrap-around written out.
use Prim.Native.Nat.{ℕ, ◌+◌, ◌-◌, ◌*◌, ◌/◌, ◌%◌, ◌^◌}
use mathlib.Core.Bool.{Bool}
use nx_c_util.Base.Tests.{ltb}

abbrev pub u8 : ℕ → ℕ
u8 n = n % 2 ^ 8

abbrev pub u16 : ℕ → ℕ
u16 n = n % 2 ^ 16

abbrev pub u32 : ℕ → ℕ
u32 n = n % 2 ^ 32

abbrev pub u64 : ℕ → ℕ
u64 n = n % 2 ^ 64

infixl 65 ◌+32◌ ◌-32◌
-- `a + b` and `a - b` on 32-bit words.
abbrev pub ◌+32◌ : ℕ → ℕ → ℕ
a +32 b = (a + b) % 2 ^ 32

abbrev pub ◌-32◌ : ℕ → ℕ → ℕ
a -32 b = (a + 2 ^ 32 - b) % 2 ^ 32

-- `(int32_t)(now - deadline) >= 0`: the sign bit of the difference is clear.
abbrev pub reached : ℕ → ℕ → Bool
reached now deadline = ltb (now -32 deadline) (2 ^ 31)

infixl 75 ◌<<◌ ◌>>◌
abbrev pub ◌<<◌ : ℕ → ℕ → ℕ
x << k = x * 2 ^ k

abbrev pub ◌>>◌ : ℕ → ℕ → ℕ
x >> k = x / 2 ^ k
