-- ===== src/Boot.antt =====
-- The start of a core: `cinit_core`, `master_core` and `slave_core` of src/c/init.c, with `core_enable` of
-- src/c/multicore.c. The board is what they leave in memory and in the devices, up to the endless loop of
-- `kernel_init`; `none` is a wait that goes on. The page tables of `enable_mmu` are left out.
pub mod Pins
pub mod Master
use rpi_kernel.Base.{
  ℕ, ◌+◌, ◌^◌, Bool, true, false, Option, none, some, List, [], ◌∷◌, ◌++◌, ◌==◌, if◌then◌else◌,
  update,
}
use rpi_kernel.Links.{Ptr}
use rpi_kernel.State.{
  Run, ok, hang, fault, Cmd, and_then, ◌>>◌, newlib_lock, spin_lock, spin_unlock,
}
use rpi_kernel.Gpio.{Gpio, sel_output, gpio_fsel, gpio_write}
use rpi_kernel.Timer.{CoreTimer, core_timer_init, core_timer_interrupt_routing}
use rpi_kernel.Mailbox.{mb0_property_tags_arm_to_vc, mailbox_write}
use rpi_kernel.Kernel.Vectors.{Machine, Handlers, kernel_init}

pub record Board : Type 0 where
  pub gpio : Gpio
  pub timer : CoreTimer
  -- `cpu_release_addr`
  pub slots : ℕ → Ptr
  -- `act_message[6]`, and the words that went to the mailbox
  pub act : ℕ
  pub sent : List ℕ
  pub machine : Machine

unfoldable pub core_enable : (core : ℕ) → (addr : Ptr) → (ℕ → Ptr) → ℕ → Ptr
core_enable core addr slots = update slots core addr

-- The greeting is printed behind the lock, and changes nothing.
abbrev pub greet : Cmd (Unit {0})
greet = do spin_lock newlib_lock; spin_unlock newlib_lock

abbrev pub enter_kernel : Handlers → (core : ℕ) → Board → Run (Unit {0}) → Option Board
enter_kernel h core b (ok done s) =
    some (record b { machine = kernel_init h core (record b.machine { kernel = s }) })
enter_kernel h core b hang = none
enter_kernel h core b fault = none

unfoldable pub master_core : Handlers → Board → Option Board
master_core h b = enter_kernel h 0 b (greet b.machine.kernel)

unfoldable pub slave_core : Handlers → (core_id : ℕ) → Board → Option Board
slave_core h core_id b = enter_kernel h core_id b (greet b.machine.kernel)

abbrev pub as_output : (pin : ℕ) → Gpio → Gpio
as_output pin g = let (result, after) = gpio_fsel pin sel_output g in after

abbrev pub raise : (pin : ℕ) → Gpio → Gpio
raise pin g = let (result, after) = gpio_write pin true g in after

-- The pins that `cinit_core` sets up.
unfoldable pub init_pins : Gpio → Gpio
init_pins g =
    let outputs = as_output 21 (as_output 19 (as_output 13 (as_output 6 (as_output 5 g)))) in
    raise 19 (raise 13 (raise 6 (raise 5 outputs)))

-- The `switch` of `cinit_core`: CT_CTRL_SRC_APB is 2 ^ 8, CT_CTRL_INC2 is 2 ^ 9 and CT_IRQ_NON_SECURE is 2.
unfoldable pub init_by_core : Handlers → (init_core : Ptr) → (core : ℕ) → Board → Option Board
unfolding core_enable init_pins master_core slave_core
init_by_core h init_core core b =
    if core == 0
    then master_core h (record b {
      timer = core_timer_interrupt_routing 0 2 (core_timer_init (2 ^ 8) (2 ^ 9) 0x80000000 b.timer);
      slots = core_enable 3 init_core (core_enable 2 init_core (core_enable 1 init_core b.slots));
      gpio = init_pins b.gpio;
    })
    else slave_core h core (record b { timer = core_timer_interrupt_routing core 2 b.timer })

-- What is done once the mailbox has taken its word.
abbrev pub after_message :
    Handlers → (init_core : Ptr) → (core : ℕ) → Board → Option ℕ → Option Board
after_message h init_core core b none = none
after_message h init_core core b (some word) =
    init_by_core h init_core core (record b { sent = b.sent ++ word ∷ [] })

-- `message` is the address of `act_message`, `init_core` that of `_init_core`, and `statuses` what the status
-- register of the mailbox reads.
unfoldable pub cinit_core :
    Handlers → (message init_core : Ptr) → (statuses : List ℕ) → (core : ℕ) → Board → Option Board
unfolding init_by_core
cinit_core h message init_core statuses core b =
    after_message h init_core core (record b { act = 1 })
      (mailbox_write mb0_property_tags_arm_to_vc message statuses)
