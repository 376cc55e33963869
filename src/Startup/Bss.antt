-- ===== src/Startup/Bss.antt =====
-- `init_bss` of src/c/cstartup.c clears what it is meant to clear, and ends.
use rpi_kernel.Base.{
  ℕ, zero, suc, ◌+◌, ◌-◌, ◌<◌, ◌≡◌, refl, ◌∙◌, ◌&&◌, some, arith, if◌then◌else◌, ltb, leb, update,
  Bool-cases, inl, inr,
}
use rpi_kernel.Links.{Ptr}
use rpi_kernel.Startup.{init_bss}

bss_done :
    (fuel : ℕ) (bss end : Ptr) (memory : Ptr → ℕ)
    → end < bss + fuel
    → 0 < fuel
    → (g : Ptr → ℕ) × (init_bss fuel bss end memory ≡ some g)
      × ((a : Ptr) → g a ≡ (if leb bss a && ltb a end then 0 else memory a))
unfolding init_bss
bss_done zero bss end memory enough some_fuel = absurd (omega arith)
bss_done (suc fuel) bss end memory enough some_fuel = elim (Bool-cases (ltb bss end)) [
  | inl below ↦
      let (g, run, cleared) =
        bss_done fuel (suc bss) end (update memory bss 0) (omega arith) (ground arith) in
      (g, rw (below, run) refl, λ a. cleared a ∙ ground arith)
  | inr over ↦ (memory, rw over refl, λ a. ground arith)
]

-- `init_bss` ends after no more rounds than there are bytes from the start to the end, and one to see that
-- there are none left: then every byte from the start up to the end is 0, and all others are as before.
pub init_bss_lem :
    (bss end : Ptr) (memory : Ptr → ℕ)
    → (g : Ptr → ℕ) × (init_bss (suc (end - bss)) bss end memory ≡ some g)
      × ((a : Ptr) → g a ≡ (if leb bss a && ltb a end then 0 else memory a))
init_bss_lem bss end memory = bss_done (suc (end - bss)) bss end memory (omega arith) (omega arith)
