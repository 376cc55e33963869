-- ===== src/Interrupts.antt =====
-- The vectors of interrupts and exceptions: src/c/interrupts.c and src/c/include/interrupts.h. A
-- two-dimensional table is one row after the other, as C lays it out.
pub mod Route
use rpi_kernel.Base.{
  ℕ, zero, suc, ◌+◌, ◌-◌, ◌*◌, ◌/◌, ◌%◌, ◌^◌, Bool, Option, none, some, List, [], ◌∷◌, ◌==◌,
  if◌then◌else◌, update, bit_and,
}
use rpi_kernel.Links.{Ptr}

-- `interrupt_vector_t`: functions are named by their addresses.
pub record Vector : Type 0 where
  pub identify : Option Ptr
  pub handler : Ptr

-- `vector_table_esr` and `vector_table_int`
pub record Tables : Type 0 where
  pub esr : ℕ → Vector
  pub int : ℕ → Vector

abbrev pub esr_entries : ℕ
esr_entries = 64

abbrev pub int_entries : ℕ
int_entries = 29

-- `none` is `undefined_handler`, which never returns; otherwise the functions that are called.
abbrev pub Called : Type 0
Called = Option (List Ptr)

abbrev pub run : Vector → Called
run v = some (elim v.identify [ none ↦ v.handler ∷ [] | some f ↦ f ∷ v.handler ∷ [] ])

unfoldable pub register_interrupt_handler :
    (core : ℕ) → (sync : Bool) → (entry : ℕ) → Vector → Tables → Tables
register_interrupt_handler core sync entry vec t =
    if sync
    then record t { esr = update t.esr (core * esr_entries + entry) vec }
    else record t { int = update t.int (core * int_entries + entry) vec }

-- `__builtin_ffs`: one more than the position of the lowest bit that is set, 0 for 0.
unfoldable pub ffs_loop : (left i x : ℕ) → ℕ
ffs_loop zero i x = 0
ffs_loop (suc left) i x =
    let rest = ffs_loop left (suc i) (x / 2) in if x % 2 == 1 then suc i else rest

unfoldable pub ffs : ℕ → ℕ
unfolding ffs_loop
ffs x = ffs_loop 32 0 x

-- `ESR_ELx_EC`: the mask is a negative `int`, so it keeps the upper half of the register too.
unfoldable pub esr_ec : ℕ → ℕ
esr_ec esr = bit_and esr (2 ^ 64 - 2 ^ 26) / 2 ^ 26

unfoldable pub interrupt_handler_sync : (core esr : ℕ) → Tables → Called
interrupt_handler_sync core esr t = run (t.esr (core * esr_entries + esr_ec esr))

-- `src` is what the core's interrupt source register reads.
unfoldable pub interrupt_handler_irq : (core src : ℕ) → Tables → Called
interrupt_handler_irq core src t =
    if src == 0 then none else run (t.int (core * int_entries + (ffs src - 1)))

unfoldable pub interrupt_handler_fiq : (core src : ℕ) → Tables → Called
interrupt_handler_fiq core src t =
    if src == 0 then none else run (t.int (core * int_entries + (ffs src - 1)))
