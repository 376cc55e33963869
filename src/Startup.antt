-- ===== src/Startup.antt =====
-- The memory that the C code starts with: `init_bss` of src/c/cstartup.c and `_sbrk` of src/c/cstubs.c.
pub mod Bss
pub mod Heap
use rpi_kernel.Base.{
  ℕ, zero, suc, ◌+◌, Option, none, some, ◌==◌, if◌then◌else◌, ltb, u64, int_to_u64, update,
}
use rpi_kernel.Links.{Ptr, null}

-- `while (bss < end) *bss++ = 0` on fuel, over the bytes of the memory.
unfoldable pub init_bss : (fuel : ℕ) → (bss end : Ptr) → (Ptr → ℕ) → Option (Ptr → ℕ)
init_bss zero bss end memory = none
init_bss (suc fuel) bss end memory =
    let rest = init_bss fuel (suc bss) end (update memory bss 0) in
    if ltb bss end then rest else some memory

-- What `_sbrk` answers, and its static `heap_end` afterwards.
pub record Break : Type 0 where
  pub answer : Ptr
  pub heap_end : Ptr

-- `heap_start` and `heap_limit` are the addresses that the linker gives for `__heap_start` and `__heap_end`.
unfoldable pub sbrk : (heap_start heap_limit : Ptr) → (incr : ℕ) → (heap_end : Ptr) → Break
sbrk heap_start heap_limit incr heap_end =
    let prev = if heap_end == null then heap_start else heap_end in
    let moved = u64 (prev + int_to_u64 incr) in
    if ltb heap_limit moved
    then record { answer = null; heap_end = prev }
    else record { answer = prev; heap_end = moved }
