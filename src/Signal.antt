-- ===== src/Signal.antt =====
-- The searches for a bit of src/c/kernel/signal.c. `clz` is the compiler's `__builtin_clz`.
use rpi_kernel.Base.{ℕ, ◌+◌, ◌-◌, ◌^◌, ◌<◌, ◌≤◌, ◌≡◌, ◌≢◌, false, ◌==◌, if◌then◌else◌, u32, arith}
use rpi_kernel.Interrupts.{ffs}

-- The answers are the bits of an int; `clz` and `ffs` take an unsigned int and an int, so the lower half
-- of the word.
module _ (clz : ℕ → ℕ) where
  unfoldable pub msb : ℕ → ℕ
  msb x = if x == 0 then 2 ^ 32 - 1 else u32 (32 + 2 ^ 32 - clz (u32 x))

  -- `msb` of a word below 2 ^ 32 that is not 0 is one more than the position of its highest bit.
  msb_lem :
      ((x : ℕ) → x ≢ 0 → x < 2 ^ 32 → clz x < 32)
      → ((x : ℕ) → x ≢ 0 → x < 2 ^ 32 → (2 ^ (31 - clz x) ≤ x) × (x < 2 ^ (32 - clz x)))
      → (x : ℕ) → x ≢ 0
      → x < 2 ^ 32
      → (2 ^ (msb x - 1) ≤ x) × (x < 2 ^ msb x)
  unfolding msb
  msb_lem few zeros x pos word =
      let low : u32 x ≡ x = omega arith in
      let k = few x pos word in
      let some_bit : (x == 0) ≡ false = ground arith in
      let at : u32 (32 + 2 ^ 32 - clz x) ≡ 32 - clz x = omega arith in
      let before : 32 - clz x - 1 ≡ 31 - clz x = omega arith in
      rw (some_bit, low, at, before) (zeros x pos word)

unfoldable pub lsb : ℕ → ℕ
lsb x = u32 (ffs (u32 x) + (2 ^ 32 - 1))
