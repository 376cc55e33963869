-- ===== src/Perf.antt =====
-- The performance monitor: src/c/perf.c by the writes of system registers, and the set-up of it in
-- `kernel_start` of src/c/kernel/kinit.c. What a register reads is an argument.
use rpi_kernel.Base.{ℕ, ◌^◌, ◌≡◌, List, [], ◌∷◌, ◌++◌, bit_and, bit_or, u32, int_to_u64, arith}
use rpi_kernel.Base.Bits.{bit, bit-bit_and, bit-bit_or, bit-le}

pub data Register : Type 0 where
  pmcr_el0 pmcntenset_el0 pmcntenclr_el0 pmselr_el0 pmxevtyper_el0 : Register

-- `MSR register, value`
pub record Msr : Type 0 where
  pub register : Register
  pub value : ℕ

abbrev pub msr : Register → ℕ → Msr
msr register value = record { register = register; value = value }

unfoldable pub pmu_enable : (pmcr : ℕ) → Msr
pmu_enable pmcr = msr pmcr_el0 (bit_or pmcr 1)

unfoldable pub pmu_disable : (pmcr : ℕ) → Msr
pmu_disable pmcr = msr pmcr_el0 (bit_and pmcr 1)

unfoldable pub pmu_reset_pmn : (pmcr : ℕ) → Msr
pmu_reset_pmn pmcr = msr pmcr_el0 (bit_or pmcr 2)

unfoldable pub pmu_reset_ccnt : (pmcr : ℕ) → Msr
pmu_reset_ccnt pmcr = msr pmcr_el0 (bit_or pmcr 4)

unfoldable pub pmu_enable_ccnt : Msr
pmu_enable_ccnt = msr pmcntenset_el0 0x80000000

-- The write that selects the counter, before its value is read.
unfoldable pub pmu_read_pmn : (counter : ℕ) → Msr
pmu_read_pmn counter = msr pmselr_el0 (bit_and counter 0x1f)

unfoldable pub pmu_config_pmn : (counter event : ℕ) → List Msr
pmu_config_pmn counter event = msr pmselr_el0 (bit_and counter 0x1f) ∷ msr pmxevtyper_el0 event ∷ []

-- `1 << counter` is an int, whose sign is extended.
unfoldable pub pmu_enable_pmn : (counter : ℕ) → Msr
pmu_enable_pmn counter = msr pmcntenset_el0 (int_to_u64 (u32 (2 ^ counter)))

unfoldable pub pmu_disable_pmn : (counter : ℕ) → Msr
pmu_disable_pmn counter = msr pmcntenclr_el0 (int_to_u64 (u32 (2 ^ counter)))

-- "Setup Performance Monitor Unit"; the control register is read three times.
unfoldable pub pmu_setup : (first second third : ℕ) → List Msr
unfolding pmu_enable pmu_config_pmn pmu_enable_pmn pmu_enable_ccnt pmu_reset_ccnt pmu_reset_pmn
pmu_setup first second third =
    pmu_enable first
    ∷ (pmu_config_pmn 0 0x8
        ++ (pmu_config_pmn 1 0x11
            ++ (pmu_config_pmn 2 0x4
                ++ (pmu_config_pmn 3 0x3
                    ++ (pmu_config_pmn 4 0x14
                        ++ (pmu_config_pmn 5 0x1
                            ++ (pmu_enable_pmn 0
                                ∷ pmu_enable_pmn 1
                                ∷ pmu_enable_pmn 2
                                ∷ pmu_enable_pmn 3
                                ∷ pmu_enable_pmn 4
                                ∷ pmu_enable_pmn 5
                                ∷ pmu_enable_ccnt
                                ∷ pmu_reset_ccnt second
                                ∷ pmu_reset_pmn third
                                ∷ [])))))))

-- The lowest bit of the control register, which enables the counters, is 1 after `pmu_enable`, and after
-- `pmu_disable` what it was before; `pmu_disable` clears the others.
pmu_disable-keeps :
    (pmcr : ℕ) → (bit 0 (pmu_enable pmcr).value ≡ 1) × (bit 0 (pmu_disable pmcr).value ≡ bit 0 pmcr)
unfolding pmu_enable pmu_disable bit
pmu_disable-keeps pmcr = (
  omega (arith, bit-bit_or 0 pmcr 1, bit-le 0 pmcr),
  omega (arith, bit-bit_and 0 pmcr 1, bit-le 0 pmcr),
)
