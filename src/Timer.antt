-- ===== src/Timer.antt =====
-- The timers: src/c/timer.c and src/c/include/timer.h, by what the functions leave in the registers.
use rpi_kernel.Base.{ℕ, ◌^◌, update, bit_and, bit_or}

-- `local_timer_t`
pub record LocalTimer : Type 0 where
  pub interrupt_routing : ℕ
  pub control_status : ℕ
  pub irq_clear_reload : ℕ

-- `core64_timer_t` but for the counter
pub record CoreTimer : Type 0 where
  pub control : ℕ
  pub prescaler : ℕ
  pub interrupt_control : ℕ → ℕ

-- The physical timer of a core, CNTP_CTL_EL0 and CNTP_TVAL_EL0
pub record PhysicalTimer : Type 0 where
  pub ctl : ℕ
  pub tval : ℕ

unfoldable pub local_timer_reset : LocalTimer → LocalTimer
local_timer_reset t = record t { irq_clear_reload = 2 ^ 31 }

unfoldable pub local_timer_start : (reload : ℕ) → LocalTimer → LocalTimer
local_timer_start reload t = record t {
  control_status = bit_or (bit_or (bit_and reload 0x0fffffff) (2 ^ 29)) (2 ^ 28);
}

unfoldable pub local_timer_interrupt_routing : (mode : ℕ) → LocalTimer → LocalTimer
local_timer_interrupt_routing mode t = record t { interrupt_routing = mode }

unfoldable pub core_timer_init : (src inc prescaler : ℕ) → CoreTimer → CoreTimer
core_timer_init src inc prescaler t = record t { control = bit_or src inc; prescaler = prescaler }

unfoldable pub core_timer_interrupt_routing : (core_id type : ℕ) → CoreTimer → CoreTimer
core_timer_interrupt_routing core_id type t = record t {
  interrupt_control =
      update t.interrupt_control core_id (bit_or (t.interrupt_control core_id) type);
}

unfoldable pub core_timer_stop : PhysicalTimer → PhysicalTimer
core_timer_stop t = record t { ctl = 0 }
