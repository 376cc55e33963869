-- ===== src/Tests/Ports.antt =====
-- The theorems on the mailboxes, the serial port, the start of the memory and the vectors at concrete
-- inputs.
use rpi_kernel.Base.{
  ℕ, suc, ◌+◌, ◌-◌, ◌^◌, ◌≡◌, refl, none, some, List, [], ◌∷◌, arith, ◌==◌, if◌then◌else◌, leb, ltb,
  ◌&&◌, bit_or, bit_and, ◌≢◌, ◌/◌,
}
use rpi_kernel.Links.{Ptr}
use rpi_kernel.Interrupts.{run, esr_ec, ffs, interrupt_handler_irq, interrupt_handler_sync}
use rpi_kernel.Kernel.Vectors.{
  Machine, Handlers, vector, esr_elx_ec_svc64, kernel_init, start_vectors,
}
use rpi_kernel.Kernel.Vectors.Route.{vectors_reach}
use rpi_kernel.Mailbox.{mb0_property_tags_arm_to_vc, channel_code, mailbox_write, mailbox_read_beta}
use rpi_kernel.Mailbox.Trip.{Delivery, accesses, all_accesses, read-write}
use rpi_kernel.Startup.{init_bss}
use rpi_kernel.Startup.Bss.{init_bss_lem}
use rpi_kernel.Startup.Heap.{granted, carved, AreApart, sbrk_blocks}
use rpi_kernel.Uart.{answers, write}
use rpi_kernel.Uart.Send.{bytes_from, free_times, write_lem}
use rpi_kernel.Tests.System.{system}
use rpi_kernel.Tests.Devices.{no_vectors}

-- A word for channel 1, then one for channel 8 after the device was empty once.
abbrev foreign : Delivery
foreign = record { empty = []; filled = 0; word = 0x31 }

abbrev mine : Delivery
mine = record { empty = 2 ^ 30 ∷ []; filled = 0; word = 0x40001238 }

written_example :
    mailbox_write mb0_property_tags_arm_to_vc 0x1230 (2 ^ 31 ∷ 0 ∷ []) ≡ some 0x40001238
unfolding mailbox_write
written_example = refl

foreign_channel : bit_and 0x31 15 ≢ channel_code mb0_property_tags_arm_to_vc
unfolding channel_code
foreign_channel = omega arith

read-write_example :
    mailbox_read_beta mb0_property_tags_arm_to_vc
      (all_accesses (foreign ∷ []) (accesses mine (7 ∷ [])))
    ≡ some (bit_or (2 ^ 26) (0x1230 / 16), 7 ∷ [])
read-write_example =
    read-write mb0_property_tags_arm_to_vc 0x1230 (foreign ∷ []) mine (2 ^ 31 ∷ 0 ∷ []) (7 ∷ [])
      (omega arith) written_example ((tt, refl), foreign_channel, tt) ((refl, tt), refl)

abbrev text : ℕ → ℕ
text i = 65 + i

write_lem_example :
    (rest : List ℕ) × (write (λ fd. none) 1 text 2 (32 ∷ 0 ∷ 96 ∷ 32 ∷ [])
      ≡ answers (some (2, bytes_from text 2 0, rest)))
    × (free_times rest + 2 ≡ free_times (32 ∷ 0 ∷ 96 ∷ 32 ∷ []))
write_lem_example =
    write_lem (λ fd. none) 1 text 2 (32 ∷ 0 ∷ 96 ∷ 32 ∷ []) (omega arith) (omega arith)
      (omega arith)

init_bss_lem_example :
    (g : Ptr → ℕ) × (init_bss (suc (110 - 100)) 100 110 (λ a. a) ≡ some g)
    × ((a : Ptr) → g a ≡ (if leb 100 a && ltb a 110 then 0 else a))
init_bss_lem_example = init_bss_lem 100 110 (λ a. a)

sbrk_blocks_example :
    (granted 1000 1100 (40 ∷ 80 ∷ 60 ∷ []) 0 ≡ carved 1000 1100 (40 ∷ 80 ∷ 60 ∷ []))
    × AreApart 1000 1100 (granted 1000 1100 (40 ∷ 80 ∷ 60 ∷ []) 0)
sbrk_blocks_example =
    sbrk_blocks 1000 1100 (omega arith) (omega arith) (40 ∷ 80 ∷ 60 ∷ [])
      (omega arith, (omega arith, (omega arith, tt))) (omega arith)

abbrev pub handlers : Handlers
handlers = record { timer_handler = 4000; svc_handler = 5000; kernel_release_handler = 6000 }

abbrev pub machine : Machine
machine = record {
  tables = no_vectors;
  routing = λ c. 0;
  mailbox = λ c. 0;
  cleared = λ c. 0;
  kernel = system;
}

svc_example : esr_ec 0x54000000 ≡ esr_elx_ec_svc64
unfolding esr_ec
svc_example = refl

vectors_reach_example :
    (interrupt_handler_sync 0 0x54000000 (start_vectors 0 (kernel_init handlers 0 machine).tables)
      ≡ run (vector 5000))
    × (interrupt_handler_irq 2 18 (start_vectors 0 (kernel_init handlers 0 machine).tables) ≡ (
        if 2 == 0
        then (if leb 5 (ffs 18) && leb (ffs 18) 8
            then run (vector 0)
            else if ffs 18 == 2
            then run (vector 4000)
            else interrupt_handler_irq 2 18 no_vectors)
        else interrupt_handler_irq 2 18 no_vectors))
    × (interrupt_handler_irq 0 18 (kernel_init handlers 0 machine).tables ≡ (
        if ffs 18 == 5
        then run (vector 6000)
        else if ffs 18 == 2
        then run (vector 4000)
        else interrupt_handler_irq 0 18 no_vectors))
vectors_reach_example =
    vectors_reach handlers 0 machine 2 18 0x54000000 (omega arith) (omega arith) svc_example
