-- ===== src/Base/Words.antt =====
-- Machine integers as bit patterns: a `uint32_t` or an `int` is a number below 2 ^ 32, a `uint64_t`
-- one below 2 ^ 64, and each operation wraps.
use Prim.Native.Nat.{ℕ, ◌+◌, ◌-◌, ◌%◌, ◌/◌, ◌^◌, ◌≤◌}
use mathlib.Core.Path.{◌≡◌}
use mathlib.Core.Bool.{Bool, true}
use native.Mathlib.Omega.{arith}
use rpi_kernel.Base.Tests.{ltb, leb, if◌then◌else◌}

abbrev pub u32 : ℕ → ℕ
u32 n = n % 2 ^ 32

abbrev pub u64 : ℕ → ℕ
u64 n = n % 2 ^ 64

abbrev pub int_max : ℕ
int_max = 2 ^ 31 - 1

-- `n - 1` on 32 and on 64 bits.
abbrev pub pred32 : ℕ → ℕ
pred32 n = (n + (2 ^ 32 - 1)) % 2 ^ 32

abbrev pub pred64 : ℕ → ℕ
pred64 n = (n + (2 ^ 64 - 1)) % 2 ^ 64

-- `a < b` on `int`.
abbrev pub lt_int : ℕ → ℕ → Bool
lt_int a b = ltb ((a + 2 ^ 31) % 2 ^ 32) ((b + 2 ^ 31) % 2 ^ 32)

-- An `int` where a `uint64_t` is wanted: sign extension.
abbrev pub int_to_u64 : ℕ → ℕ
int_to_u64 n = if ltb n (2 ^ 31) then n else n + (2 ^ 64 - 2 ^ 32)

abbrev pub magnitude : ℕ → ℕ
magnitude n = if ltb n (2 ^ 31) then n else 2 ^ 32 - n

-- `a / b < 1.2` on `int`: the quotient, rounded to zero, is at most 1. A quotient by 0 is 0, as the
-- processor's SDIV gives it.
abbrev pub quotient_below_1_2 : ℕ → ℕ → Bool
quotient_below_1_2 a b =
    if ltb a (2 ^ 31)
    then (if ltb b (2 ^ 31) then leb (a / b) 1 else true)
    else (if ltb b (2 ^ 31) then true else leb (magnitude a / magnitude b) 1)

pub lt_int_small : (a b : ℕ) → a ≤ int_max → b ≤ int_max → lt_int a b ≡ ltb a b
lt_int_small a b p q = ground arith
