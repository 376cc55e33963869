-- ===== src/Kernel/Vectors.antt =====
-- The vectors that `kernel_init` and `kernel_start` of src/c/kernel/kinit.c register, and the release of the
-- cores.
pub mod Route
use rpi_kernel.Base.{ℕ, zero, suc, ◌+◌, ◌==◌, if◌then◌else◌, true, false, none, update, bit_or}
use rpi_kernel.Links.{Ptr, null}
use rpi_kernel.State.{State}
use rpi_kernel.Config.{num_cores}
use rpi_kernel.Interrupts.{Vector, Tables, register_interrupt_handler}
use rpi_kernel.Mailbox.{core_mailbox_interrupt_routing}
use rpi_kernel.Kernel.{proc_init, disp_init}

-- What `kernel_init` and `kernel_release_handler` write besides the kernel's state: the vectors, and of
-- `core_mailbox_t` the routing, the first mailbox of each core, and what is written to clear it.
pub record Machine : Type 0 where
  pub tables : Tables
  pub routing : ℕ → ℕ
  pub mailbox : ℕ → ℕ
  pub cleared : ℕ → ℕ
  pub kernel : State

-- Where the functions of kinit.c stand that handle interrupts.
pub record Handlers : Type 0 where
  pub timer_handler : Ptr
  pub svc_handler : Ptr
  pub kernel_release_handler : Ptr

abbrev pub esr_elx_ec_svc64 : ℕ
esr_elx_ec_svc64 = 0x15

-- `(interrupt_vector_t) { .handle = f }`
abbrev pub vector : Ptr → Vector
vector f = record { identify = none; handler = f }

-- `core_mailbox->set[cpu][0] = true`, from `left - 1` down to 0
abbrev pub release_cores : (left : ℕ) → (ℕ → ℕ) → ℕ → ℕ
release_cores zero mailbox = mailbox
release_cores (suc left) mailbox = release_cores left (update mailbox left 1)

-- The vectors of `kernel_init`.
unfoldable pub init_vectors : Handlers → (core : ℕ) → Tables → Tables
init_vectors h core t = register_interrupt_handler core false 4 (vector h.kernel_release_handler) (
    register_interrupt_handler core true esr_elx_ec_svc64 (vector h.svc_handler)
      (register_interrupt_handler core false 1 (vector h.timer_handler) t))

-- `kernel_init` up to its endless loop.
unfoldable pub kernel_init : Handlers → (core : ℕ) → Machine → Machine
unfolding init_vectors
kernel_init h core m =
    let vectors = init_vectors h core m.tables in
    let routed = core_mailbox_interrupt_routing core 15 m.routing in
    if core == 0
    then record {
      tables = vectors;
      routing = routed;
      mailbox = release_cores num_cores m.mailbox;
      cleared = m.cleared;
      kernel = disp_init (proc_init m.kernel);
    }
    else record m { tables = vectors; routing = routed }

-- The vectors of `kernel_start`.
unfoldable pub start_vectors : (core : ℕ) → Tables → Tables
start_vectors core t = register_interrupt_handler core false 7 (vector null) (
    register_interrupt_handler core false 6 (vector null) (
      register_interrupt_handler core false 5 (vector null)
        (register_interrupt_handler core false 4 (vector null) t)))
