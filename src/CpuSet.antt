-- ===== src/CpuSet.antt =====
-- The CPU sets of src/c/kernel/context.c: a word with a bit for each core.
use rpi_kernel.Base.{
  ℕ, zero, suc, ◌+◌, u32, if◌then◌else◌, ◌-◌, ◌^◌, ◌<◌, ◌≡◌, Bool, false, ◌&&◌, ◌||◌, not, ◌==◌,
  arith, bit_and, bit_or, inl, inr,
}
use rpi_kernel.Config.{num_cores}
use rpi_kernel.Base.Bits.{
  bit, bit-le, bit-zero, bit-bit_and, bit-bit_or, bit-pow, bit_and-pow, bit-complement, bit-cases,
  pow-pos, pow-lt,
}

-- `1 << cpu`
abbrev cpu_bit : ℕ → ℕ
cpu_bit cpu = 2 ^ cpu

abbrev pub cpu_zero : ℕ
cpu_zero = 0

unfoldable pub cpu_set : ℕ → ℕ → ℕ
cpu_set cpu set = bit_or set (cpu_bit cpu)

unfoldable pub cpu_clr : ℕ → ℕ → ℕ
cpu_clr cpu set = bit_and set (2 ^ 32 - 1 - cpu_bit cpu)

unfoldable pub cpu_isset : ℕ → ℕ → Bool
cpu_isset cpu set = not (bit_and set (cpu_bit cpu) == 0)

unfoldable pub cpu_and : ℕ → ℕ → ℕ
cpu_and dst src = bit_and dst src

-- The loop of CPU_COUNT, with `left` cores to go.
unfoldable pub count_loop : (left count set : ℕ) → ℕ
count_loop zero count set = count
count_loop (suc left) count set =
    count_loop left (if cpu_isset (num_cores - suc left) set then u32 (count + 1) else count) set

-- `count` is what the local of that name holds at the start, which the source does not set.
unfoldable pub cpu_count : (count set : ℕ) → ℕ
unfolding count_loop
cpu_count count set = count_loop num_cores count set

pub isset-bit : (cpu set : ℕ) → cpu_isset cpu set ≡ (bit cpu set == 1)
unfolding cpu_isset
isset-bit cpu set = elim (bit-cases cpu set) [
  | inl clear ↦ rw (bit_and-pow cpu set, clear) (ground arith)
  | inr up ↦ rw (bit_and-pow cpu set, up) (ground (arith, pow-pos cpu))
]

pub isset-zero : (cpu : ℕ) → cpu_isset cpu cpu_zero ≡ false
isset-zero cpu = rw isset-bit (ground (arith, bit-zero cpu))

-- A core is in the set after CPU_SET if it was put there or was there before.
pub isset-set : (cpu c set : ℕ) → cpu_isset cpu (cpu_set c set) ≡ ((cpu == c) || cpu_isset cpu set)
unfolding cpu_set
isset-set cpu c set = ground (
  arith,
  isset-bit cpu (bit_or set (2 ^ c)),
  isset-bit cpu set,
  bit-bit_or cpu set (2 ^ c),
  bit-pow cpu c,
  bit-le cpu set,
)

-- CPU_CLR of a core below 32 takes out that core and keeps every other below 32.
pub isset-clr :
    (cpu c set : ℕ)
    → cpu < 32
    → c < 32
    → cpu_isset cpu (cpu_clr c set) ≡ (not (cpu == c) && cpu_isset cpu set)
unfolding cpu_clr
isset-clr cpu c set p q = ground (
  arith,
  isset-bit cpu (bit_and set (2 ^ 32 - 1 - 2 ^ c)),
  isset-bit cpu set,
  bit-bit_and cpu set (2 ^ 32 - 1 - 2 ^ c),
  bit-complement 32 cpu (2 ^ c) p (pow-lt 32 c q),
  bit-pow cpu c,
  bit-le cpu set,
)

-- CPU_AND is the intersection.
pub isset-and :
    (cpu dst src : ℕ) → cpu_isset cpu (cpu_and dst src) ≡ (cpu_isset cpu dst && cpu_isset cpu src)
unfolding cpu_and
isset-and cpu dst src = ground (
  arith,
  isset-bit cpu (bit_and dst src),
  isset-bit cpu dst,
  isset-bit cpu src,
  bit-bit_and cpu dst src,
  bit-le cpu dst,
  bit-le cpu src,
)

-- CPU_COUNT adds the cores of the set to what the counter happened to hold.
pub cpu_count_lem :
    (count set : ℕ) → count < 2 ^ 32 → cpu_count count set ≡ u32 (count + cpu_count 0 set)
unfolding cpu_count count_loop
cpu_count_lem count set small = ground arith
