-- ===== src/Boot/Master.antt =====
-- What the first core finds, and leaves, when `cinit_core` of src/c/init.c has gone through the set-up of
-- the devices, the release of the other cores and `kernel_init`.
use rpi_kernel.Base.{
  ℕ, ◌+◌, ◌^◌, ◌<◌, ◌≡◌, refl, arith, some, List, [], ◌∷◌, ◌++◌, ◌==◌, ◌||◌, if◌then◌else◌, ltb,
  update_key,
}
use rpi_kernel.Base.Bits.{bit}
use rpi_kernel.Config.{num_cores}
use rpi_kernel.Links.{Ptr, null}
use rpi_kernel.State.{State, Head, ok, newlib_lock, lock_key, spin_lock-ok, spin_unlock}
use rpi_kernel.Gpio.{to_set}
use rpi_kernel.Sched.{queue_length}
use rpi_kernel.Timer.{core_timer_init, core_timer_interrupt_routing}
use rpi_kernel.Mailbox.{mb0_property_tags_arm_to_vc, mailbox_write}
use rpi_kernel.Dispatch.Sound.{IsSound}
use rpi_kernel.Kernel.Init.{init-IsSound}
use rpi_kernel.Kernel.Vectors.{Handlers, kernel_init}
use rpi_kernel.Boot.{Board, core_enable, greet, init_pins, master_core, init_by_core, cinit_core}
use rpi_kernel.Boot.Pins.{selector, is_used, selector-init_pins, writes-init_pins}

-- The lock of the C library taken and given back.
abbrev greeted : State → State
greeted s = record s { locks = update_key (update_key s.locks newlib_lock 1) newlib_lock 0 }

greet-ok : (s : State) → s.locks newlib_lock ≡ 0 → greet s ≡ ok tt (greeted s)
unfolding spin_unlock
greet-ok s free = rw (spin_lock-ok newlib_lock s free) refl

-- What the first core leaves: the kernel's queues sound, the other cores released, each core's first
-- mailbox written, and the devices set up.
pub record Started (init_core : Ptr) (word : ℕ) (b g : Board) : Type 0 where
  pub sound : IsSound g.machine.kernel
  pub told : g.sent ≡ b.sent ++ word ∷ []
  pub act : g.act ≡ 1
  pub released :
      (c : ℕ) → g.slots c ≡ (if (c == 1) || ((c == 2) || (c == 3)) then init_core else b.slots c)
  pub woken : (c : ℕ) → g.machine.mailbox c ≡ (if ltb c num_cores then 1 else b.machine.mailbox c)
  pub clocked : (g.timer.control ≡ 2 ^ 8 + 2 ^ 9) × (g.timer.prescaler ≡ 2 ^ 31)
  pub pins :
      (pin j : ℕ)
      → j < 3
      → selector pin j g.gpio ≡ (if is_used pin then bit j 1 else selector pin j b.gpio)
  pub raised :
      g.gpio.writes
      ≡ b.gpio.writes
        ++ to_set 0 (2 ^ 5) ∷ to_set 0 (2 ^ 6) ∷ to_set 0 (2 ^ 13) ∷ to_set 0 (2 ^ 19) ∷ []

-- Where the mailbox takes a word, the lock of the C library is free, and no process is linked or runs:
-- `cinit_core` of core 0 comes to the endless loop of `kernel_init`. The queues and the running processes of
-- the kernel are then sound, the word is sent, the release addresses of cores 1 to 3 are those of their
-- start, the first mailbox of every core is written, the timer counts at its full rate, pins 5, 6, 13, 19
-- and 21 are outputs and no other pin's function has changed, and the first four of these are set.
pub master_starts :
    (h : Handlers) (message init_core : Ptr) (statuses : List ℕ) (word : ℕ) (b : Board)
    → mailbox_write mb0_property_tags_arm_to_vc message statuses ≡ some word
    → b.machine.kernel.locks newlib_lock ≡ 0
    → ((a : Head) → b.machine.kernel.lists a ≡ [])
    → ((c : ℕ) → b.machine.kernel.running c ≡ null)
    → ((c : ℕ) → queue_length b.machine.kernel c ≡ 0)
    → (g : Board) × (cinit_core h message init_core statuses 0 b ≡ some g)
      × Started init_core word b g
unfolding cinit_core init_by_core master_core core_enable kernel_init core_timer_init
    core_timer_interrupt_routing
master_starts h message init_core statuses word b takes free out idle_cores lengths =
    let s = greeted b.machine.kernel in
    let (sound, empty, buckets) = init-IsSound s (λ a o. out a) idle_cores lengths in
    let g : Board = record {
      gpio = init_pins b.gpio;
      timer = core_timer_interrupt_routing 0 2 (core_timer_init (2 ^ 8) (2 ^ 9) 0x80000000 b.timer);
      slots = core_enable 3 init_core (core_enable 2 init_core (core_enable 1 init_core b.slots));
      act = 1;
      sent = b.sent ++ word ∷ [];
      machine = kernel_init h 0 (record b.machine { kernel = s });
    } in
    (
      g,
      rw (takes, greet-ok b.machine.kernel free) refl,
      record {
        sound = sound;
        told = refl;
        act = refl;
        released = λ c. ground arith;
        woken = λ c. ground arith;
        clocked = (refl, refl);
        pins = λ pin j small. selector-init_pins pin j b.gpio small;
        raised = writes-init_pins b.gpio;
      },
    )
