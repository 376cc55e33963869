-- ===== src/Uart.antt =====
-- The serial port: src/c/uart.c and src/c/include/uart.h, the stubs on it in src/c/cstubs.c
-- (`uart_write`, `uart_read`, the table of devices, `_write`, `_read`, `_close`).
pub mod Send
use rpi_kernel.Base.{
  ℕ, zero, suc, ◌+◌, ◌-◌, ◌*◌, ◌/◌, ◌^◌, Bool, true, false, Option, none, some, List, [], ◌∷◌, ◌==◌,
  if◌then◌else◌, ltb, bit_and, bit_or, u32, int_to_u64, update,
}
use rpi_kernel.Gpio.{Gpio, sel_alt5, gpio_fsel}

-- The registers of `aux_t` and of its `mini_uart_t` that `uart_init` writes.
pub record Aux : Type 0 where
  pub enables : ℕ
  pub ier : ℕ
  pub iir : ℕ
  pub lcr : ℕ
  pub baud : ℕ

-- `aux_reg_value_t`
abbrev pub aux_enables_mu : ℕ
aux_enables_mu = 1

abbrev pub aux_enables_sp1 : ℕ
aux_enables_sp1 = 2

abbrev pub aux_enables_sp2 : ℕ
aux_enables_sp2 = 2

abbrev pub sys_freq : ℕ
sys_freq = 250_000_000

-- The registers and the pins. A quotient by 0 is 0, as the processor gives it.
unfoldable pub uart_init : (baudrate : ℕ) → Aux × Gpio → Aux × Gpio
uart_init baudrate (aux, pins) =
    let disabled = bit_and aux.enables (2 ^ 32 - 1 - bit_or aux_enables_sp1 aux_enables_sp2) in
    (
      record {
        enables = bit_or disabled aux_enables_mu;
        iir = bit_or aux.iir (bit_or 4 2);
        lcr = bit_or aux.lcr 3;
        ier = bit_or aux.ier (bit_or 2 1);
        baud = bit_and (u32 (sys_freq / u32 (8 * baudrate) + (2 ^ 32 - 1))) 0xffff;
      },
      (gpio_fsel 15 sel_alt5 (gpio_fsel 14 sel_alt5 pins).1).1,
    )

abbrev pub mu_lsr_send_empty : ℕ
mu_lsr_send_empty = 2 ^ 5

-- `lsrs` is what the line status register gives, one access after the other. The byte that goes to the
-- data register comes with what is left; `none` is a wait that goes on when there is nothing more.
unfoldable pub uart_putc : (c : ℕ) → (lsrs : List ℕ) → Option (ℕ × List ℕ)
uart_putc c [] = none
uart_putc c (lsr ∷ lsrs) =
    let later = uart_putc c lsrs in
    if bit_and lsr mu_lsr_send_empty == 0 then later else some (bit_and c 255, lsrs)

unfoldable pub uart_getc : ℕ
uart_getc = 0

-- What is sent of `buf` from `i` on, with `left` rounds to go, and the rest of the status register.
unfoldable pub write_loop :
    (buf : ℕ → ℕ) → (left i : ℕ) → (lsrs : List ℕ) → Option (List ℕ × List ℕ)
write_loop buf zero i lsrs = some ([], lsrs)
write_loop buf (suc left) i lsrs = elim (uart_putc (buf i) lsrs) [
  | none ↦ none
  | some (c, rest) ↦ elim (write_loop buf left (suc i) rest) [
    | none ↦ none
    | some (cs, end) ↦ some (c ∷ cs, end)
  ]
]

-- The answer, what is sent, and the rest of the status register. The loop compares a `size_t` to the
-- `int` of the length, whose sign is extended.
unfoldable pub uart_write :
    (buf : ℕ → ℕ) → (len : ℕ) → (lsrs : List ℕ) → Option (ℕ × List ℕ × List ℕ)
unfolding write_loop
uart_write buf len lsrs = elim (write_loop buf (int_to_u64 len) 0 lsrs) [
  | none ↦ none
  | some (cs, rest) ↦ some (len, cs, rest)
]

unfoldable pub read_loop : (left i : ℕ) → (ℕ → ℕ) → ℕ → ℕ
unfolding uart_getc
read_loop zero i buf = buf
read_loop (suc left) i buf = read_loop left (suc i) (update buf i uart_getc)

-- The answer and the buffer.
unfoldable pub uart_read : (buf : ℕ → ℕ) → (len : ℕ) → ℕ × (ℕ → ℕ)
unfolding read_loop
uart_read buf len = (len, read_loop (int_to_u64 len) 0 buf)

-- An entry of `devoptab_list`; `open_r` and `close_r` of the serial port are NULL.
pub data Devoptab : Type 0 where
  devoptab_uart : Devoptab

-- The entry of a file descriptor. Behind the table stands something else, `beyond`; `none` is NULL.
abbrev pub devoptab_list : (beyond : ℕ → Option Devoptab) → ℕ → Option Devoptab
devoptab_list beyond fd =
    if ltb fd 3 then some devoptab_uart else if fd == 3 then none else beyond fd

-- What a stub of the C library comes to: an answer, or a fault where it follows NULL.
pub data Stub (A : Type 0) : Type 0 where
  answers : A → Stub A
  faults : Stub A

unfoldable pub write :
    (beyond : ℕ → Option Devoptab)
    → (fd : ℕ) → (buf : ℕ → ℕ) → (nbyte : ℕ) → (lsrs : List ℕ) → Stub (Option (ℕ × List ℕ × List ℕ))
unfolding uart_write
write beyond fd buf nbyte lsrs = elim (devoptab_list beyond fd) [
  | none ↦ faults
  | some devoptab_uart ↦ answers (uart_write buf nbyte lsrs)
]

unfoldable pub read :
    (beyond : ℕ → Option Devoptab) → (fd : ℕ) → (buf : ℕ → ℕ) → (nbyte : ℕ) → Stub (ℕ × (ℕ → ℕ))
unfolding uart_read
read beyond fd buf nbyte = elim (devoptab_list beyond fd) [
  | none ↦ faults
  | some devoptab_uart ↦ answers (uart_read buf nbyte)
]

-- `-1`: there is no `close_r`.
unfoldable pub close : (beyond : ℕ → Option Devoptab) → (fd : ℕ) → Stub ℕ
close beyond fd = elim (devoptab_list beyond fd) [
  | none ↦ faults
  | some devoptab_uart ↦ answers (2 ^ 32 - 1)
]
