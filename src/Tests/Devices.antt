-- ===== src/Tests/Devices.antt =====
-- The theorems on the vectors, the spinlock and the matrix loops at concrete inputs.
use rpi_kernel.Base.{ℕ, ◌≢◌, refl, ◌*◌, ◌^◌, ◌≡◌, arith, ◌==◌, if◌then◌else◌, ◌&&◌, u64}
use rpi_kernel.Base.{none, false}
use rpi_kernel.Interrupts.{
  Vector, Tables, run, register_interrupt_handler, ffs, interrupt_handler_irq,
}
use rpi_kernel.Interrupts.Route.{route_interrupt}
use rpi_kernel.Multicore.Starve.{Gets, Spins, lock_progress}
use rpi_kernel.Multicore.{
  Cores, outside, spinning, holding, goes, unlocked, call, won, start, later,
}
use rpi_kernel.Multicore.Exclusion.{Exclusive, mutual_exclusion}
use rpi_kernel.Matrix.{Matrix, Work, single_worker}
use rpi_kernel.Matrix.Rounds.{in_work, single_worker_lem}

abbrev twelve : Matrix
twelve m n = 12

abbrev ten_rounds : Work
ten_rounds = record { iters = 10; m_start = 0; m_end = 10; n_start = 12; n_end = 20 }

single_worker_lem_example :
    single_worker ten_rounds twelve 3 15
    ≡ (if in_work ten_rounds 3 15 then u64 (12 * 2 ^ 10) else 12)
single_worker_lem_example =
    single_worker_lem ten_rounds (omega arith) (omega arith) twelve 3 15 (omega arith)

abbrev pub no_vectors : Tables
no_vectors = record {
  esr = λ i. record { identify = none; handler = 900 };
  int = λ i. record { identify = none; handler = 900 };
}

abbrev timer_vector : Vector
timer_vector = record { identify = none; handler = 4000 }

route_interrupt_example :
    interrupt_handler_irq 2 10 (register_interrupt_handler 2 false 1 timer_vector no_vectors) ≡ (
      if (2 == 2) && (ffs 10 == 2) then run timer_vector else interrupt_handler_irq 2 10 no_vectors)
route_interrupt_example =
    route_interrupt 2 1 2 10 timer_vector no_vectors (omega arith) (omega arith) (omega arith)

mutual_exclusion_example :
    Exclusive (goes 1 spinning (goes 0 holding (record (goes 0 spinning unlocked) { flag = 1 })))
mutual_exclusion_example =
    mutual_exclusion _ (later (later (later start (call 0 refl)) (won 0 refl refl)) (call 1 refl))

-- Core 1 spins while core 2 is outside.
abbrev one_waits : Cores
one_waits = goes 1 spinning unlocked

lock_progress_example :
    Gets 1 one_waits
    × ((d n : ℕ)
        → 1 ≢ d
        → one_waits.pc d ≡ outside
        → one_waits.flag ≡ 0
        → Spins 1 one_waits n one_waits)
lock_progress_example = lock_progress one_waits 1 (later start (call 1 refl)) refl
