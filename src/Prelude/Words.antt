-- ===== src/Prelude/Words.antt =====
-- Fixed-width arithmetic: a word is its bit pattern, a number below the modulus.
use Prim.Native.Nat.{ℕ, ◌%◌, ◌^◌}

abbrev pub u32 : ℕ → ℕ
u32 n = n % 2 ^ 32

-- The pattern of the `int` -1.
abbrev pub minus_one : ℕ
minus_one = 0xffffffff
