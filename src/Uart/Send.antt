-- ===== src/Uart/Send.antt =====
-- What goes out of the serial port: src/c/uart.c and src/c/cstubs.c.
use rpi_kernel.Base.{
  ℕ, zero, suc, ◌+◌, ◌%◌, ◌^◌, ◌<◌, ◌≤◌, ◌≡◌, refl, Option, some, List, [], ◌∷◌, ◌==◌, arith,
  if◌then◌else◌, bit_and, int_to_u64, Bool-cases, inl, inr,
}
use rpi_kernel.Base.Bits.{bit_and-ones, ones}
use rpi_kernel.Uart.{
  mu_lsr_send_empty, uart_putc, write_loop, uart_write, Devoptab, devoptab_uart, devoptab_list,
  answers, write,
}

-- The bytes from `i` on.
abbrev pub bytes_from : (ℕ → ℕ) → (left i : ℕ) → List ℕ
bytes_from buf zero i = []
bytes_from buf (suc left) i = (buf i % 256) ∷ bytes_from buf left (suc i)

abbrev pub is_free : ℕ → ℕ
is_free lsr = if bit_and lsr mu_lsr_send_empty == 0 then 0 else 1

-- How often the status register says that the port is free.
abbrev pub free_times : List ℕ → ℕ
free_times [] = 0
free_times (lsr ∷ lsrs) = is_free lsr + free_times lsrs

putc-sends :
    (c : ℕ) (lsrs : List ℕ)
    → 0 < free_times lsrs
    → (rest : List ℕ) × (uart_putc c lsrs ≡ some (c % 256, rest))
      × (free_times rest + 1 ≡ free_times lsrs)
unfolding uart_putc ones
putc-sends c [] h = absurd (omega arith)
putc-sends c (lsr ∷ lsrs) h = elim (Bool-cases (bit_and lsr mu_lsr_send_empty == 0)) [
  | inl busy ↦
      let none_yet : is_free lsr ≡ 0 = rw busy refl in
      let (rest, run, count) = putc-sends c lsrs (omega (arith, none_yet)) in
      (rest, rw busy run, omega (arith, none_yet))
  | inr open_now ↦
      let one : is_free lsr ≡ 1 = rw open_now refl in
      (lsrs, rw (open_now, bit_and-ones 8 c) refl, omega (arith, one))
]

loop-sends :
    (buf : ℕ → ℕ) (left i : ℕ) (lsrs : List ℕ)
    → left ≤ free_times lsrs
    → (rest : List ℕ) × (write_loop buf left i lsrs ≡ some (bytes_from buf left i, rest))
      × (free_times rest + left ≡ free_times lsrs)
unfolding write_loop
loop-sends buf zero i lsrs h = (lsrs, refl, omega arith)
loop-sends buf (suc left) i lsrs h =
    let (rest, run, count) = putc-sends (buf i) lsrs (omega arith) in
    let (end, run', count') = loop-sends buf left (suc i) rest (omega arith) in
    (end, rw (write_loop, run, run') refl, omega arith)

-- If the status register says at least `nbyte` times that the port is free, and `nbyte` is no negative int,
-- `_write` to one of the file descriptors 0, 1 and 2 sends the bytes of the buffer, each once and in
-- their order, and answers their number; it waits no longer than it takes to see the port free `nbyte`
-- times.
pub write_lem :
    (beyond : ℕ → Option Devoptab) (fd : ℕ) (buf : ℕ → ℕ) (nbyte : ℕ) (lsrs : List ℕ)
    → fd < 3
    → nbyte < 2 ^ 31
    → nbyte ≤ free_times lsrs
    → (rest : List ℕ) × (write beyond fd buf nbyte lsrs
        ≡ answers (some (nbyte, bytes_from buf nbyte 0, rest)))
      × (free_times rest + nbyte ≡ free_times lsrs)
unfolding write uart_write
write_lem beyond fd buf nbyte lsrs standard positive enough =
    let (rest, run, count) = loop-sends buf nbyte 0 lsrs enough in
    let signless : int_to_u64 nbyte ≡ nbyte = ground arith in
    let there : devoptab_list beyond fd ≡ some devoptab_uart = ground arith in
    (rest, rw (write, there, uart_write, signless, run) refl, count)
