-- ===== src/Tests/Board.antt =====
-- The theorems on the start of the cores at concrete inputs.
use rpi_kernel.Base.{refl, ◌^◌, ◌≡◌, some, [], ◌∷◌, arith, update, if◌then◌else◌, ◌==◌}
use rpi_kernel.Links.{null}
use rpi_kernel.Mailbox.{mb0_property_tags_arm_to_vc, mailbox_word, mailbox_write}
use rpi_kernel.Boot.{Board, cinit_core}
use rpi_kernel.Boot.Master.{Started, master_starts}
use rpi_kernel.Multicore.Release.{
  Sleepers, awake, waiting, put, sleeps, rest, later, Forgets, Keeps, release_order,
}
use rpi_kernel.Tests.Ports.{handlers, machine}
use rpi_kernel.Tests.Start.{loaded}

abbrev powered_on : Board
powered_on = record {
  gpio = record { sel = λ i. 0; lev = λ i. 0; writes = [] };
  timer = record { control = 0; prescaler = 0; interrupt_control = λ c. 0 };
  slots = λ c. 0;
  act = 0;
  sent = [];
  machine = record machine { kernel = loaded };
}

taken_at_last :
    mailbox_write mb0_property_tags_arm_to_vc 90_000 (2 ^ 31 ∷ 0 ∷ [])
    ≡ some (mailbox_word mb0_property_tags_arm_to_vc 90_000)
unfolding mailbox_write
taken_at_last = refl

master_starts_example :
    (g : Board) × (cinit_core handlers 90_000 80_000 (2 ^ 31 ∷ 0 ∷ []) 0 powered_on ≡ some g)
    × Started 80_000 (mailbox_word mb0_property_tags_arm_to_vc 90_000) powered_on g
master_starts_example =
    master_starts handlers 90_000 80_000 (2 ^ 31 ∷ 0 ∷ []) _ powered_on taken_at_last refl
      (λ a. refl) (λ c. refl) (λ c. refl)

-- Core 1 is enabled before it sleeps, while core 2 waits.
abbrev two_cores : Sleepers
two_cores = record {
  slots = λ c. if c == 1 then 80_000 else 0;
  place = λ c. if c == 2 then waiting else awake;
}

release_order_example :
    let t = put 1 waiting (record two_cores { slots = update two_cores.slots 1 null }) in
    (two_cores.place 1 ≡ awake → Forgets 1 80_000 t)
    × (two_cores.place 1 ≡ waiting → Keeps 1 80_000 t)
release_order_example =
    release_order 1 80_000 two_cores _ (later rest (sleeps 1 refl) tt) (omega arith) refl
