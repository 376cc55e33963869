-- ===== src/Kernel/Vectors/Route.antt =====
-- Which functions the interrupts of a core reach once `kernel_init` and `kernel_start` of
-- src/c/kernel/kinit.c have registered their vectors.
use rpi_kernel.Base.{
  ℕ, suc, ◌+◌, ◌*◌, ◌^◌, ◌<◌, ◌≡◌, ◌≢◌, refl, ap, ◌∙◌, Bool, true, false, ◌&&◌, arith, ◌==◌,
  if◌then◌else◌, leb, ==_refl, update_self, Bool-cases, inl, inr,
}
use rpi_kernel.Links.{null}
use rpi_kernel.Interrupts.{
  Vector, Tables, Called, run, register_interrupt_handler, ffs, esr_ec, interrupt_handler_irq,
  interrupt_handler_sync,
}
use rpi_kernel.Interrupts.Route.{route_interrupt}
use rpi_kernel.Kernel.Vectors.{
  Machine, Handlers, vector, esr_elx_ec_svc64, init_vectors, kernel_init, start_vectors,
}

four_entries :
    (b : Bool) (r : ℕ) (n o : Called)
    → (if b && (r == 8)
        then n
        else if b && (r == 7)
        then n
        else if b && (r == 6)
        then n
        else if b && (r == 5)
        then n
        else o)
      ≡ (if b && (leb 5 r && leb r 8) then n else o)
four_entries false r n o = refl
four_entries true r n o = ground arith

both_stages :
    (b : Bool) (r : ℕ) (n release timer o : Called)
    → (if b && (leb 5 r && leb r 8)
        then n
        else if b && (r == 5)
        then release
        else if b && (r == 2)
        then timer
        else o)
      ≡ (if b then (if leb 5 r && leb r 8 then n else if r == 2 then timer else o) else o)
both_stages false r n release timer o = refl
both_stages true r n release timer o = ground arith

-- What the registrations of `kernel_start` make of the interrupts, and that they leave the exceptions.
module _ (core : ℕ) where
  pub irq_start :
      (c src : ℕ) (t : Tables)
      → src ≢ 0
      → src < 2 ^ 29
      → interrupt_handler_irq c src (start_vectors core t) ≡ (
          if (c == core) && (leb 5 (ffs src) && leb (ffs src) 8)
          then run (vector null)
          else interrupt_handler_irq c src t)
  unfolding start_vectors
  irq_start c src t pos small =
      let hit = λ (entry : ℕ). (c == core) && (ffs src == suc entry) in
      let none_yet = λ (entry : ℕ) (r : Called). if hit entry then run (vector null) else r in
      let after_four = register_interrupt_handler core false 4 (vector null) t in
      let after_five = register_interrupt_handler core false 5 (vector null) after_four in
      let after_six = register_interrupt_handler core false 6 (vector null) after_five in
      route_interrupt core 7 c src (vector null) after_six (omega arith) pos small
      ∙ ap (none_yet 7) (
          route_interrupt core 6 c src (vector null) after_five (omega arith) pos small
          ∙ ap (none_yet 6) (
              route_interrupt core 5 c src (vector null) after_four (omega arith) pos small
              ∙ ap (none_yet 5)
                  (route_interrupt core 4 c src (vector null) t (omega arith) pos small)))
      ∙ four_entries (c == core) (ffs src) (run (vector null)) (interrupt_handler_irq c src t)

  pub sync_start :
      (c esr : ℕ) (t : Tables)
      → interrupt_handler_sync c esr (start_vectors core t) ≡ interrupt_handler_sync c esr t
  unfolding interrupt_handler_sync start_vectors register_interrupt_handler
  sync_start c esr t = refl

module _ (h : Handlers) (core : ℕ) (m : Machine) where
  tables-init : (kernel_init h core m).tables ≡ init_vectors h core m.tables
  unfolding kernel_init
  tables-init = elim (Bool-cases (core == 0)) [ inl e ↦ rw e refl | inr n ↦ rw n refl ]

  -- A registration for an exception leaves the interrupts as they are.
  sync_apart :
      (c src entry : ℕ) (vec : Vector) (t : Tables)
      → interrupt_handler_irq c src (register_interrupt_handler core true entry vec t)
        ≡ interrupt_handler_irq c src t
  unfolding register_interrupt_handler interrupt_handler_irq
  sync_apart c src entry vec t = refl

  irq_init :
      (c src : ℕ)
      → src ≢ 0
      → src < 2 ^ 29
      → interrupt_handler_irq c src (init_vectors h core m.tables) ≡ (
          if (c == core) && (ffs src == 5)
          then run (vector h.kernel_release_handler)
          else if (c == core) && (ffs src == 2)
          then run (vector h.timer_handler)
          else interrupt_handler_irq c src m.tables)
  unfolding init_vectors
  irq_init c src pos small =
      route_interrupt core 4 c src (vector h.kernel_release_handler) _ (omega arith) pos small
      ∙ ap (λ r. if (c == core) && (ffs src == 5) then run (vector h.kernel_release_handler) else r)
          (sync_apart c src esr_elx_ec_svc64 (vector h.svc_handler) _
            ∙ route_interrupt core 1 c src (vector h.timer_handler) m.tables (omega arith) pos
                small)

  sync_reach :
      (esr : ℕ)
      → esr_ec esr ≡ esr_elx_ec_svc64
      → interrupt_handler_sync core esr (start_vectors core (kernel_init h core m).tables)
        ≡ run (vector h.svc_handler)
  unfolding interrupt_handler_sync start_vectors register_interrupt_handler init_vectors
  sync_reach esr svc =
      ap (λ t. interrupt_handler_sync core esr (start_vectors core t)) tables-init
      ∙ (ap (λ e. run ((init_vectors h core m.tables).esr (core * 64 + e))) svc
          ∙ ap run (update_self m.tables.esr (core * 64 + esr_elx_ec_svc64) (vector h.svc_handler)))

  -- After `kernel_init` and the registrations of `kernel_start`, a system call of the core reaches
  -- `svc_handler`. Where the pending sources are some of the 29 that a core has entries for, the core's own
  -- timer, source 1, reaches `timer_handler`, the four mailboxes, sources 4 to 7, reach NULL, and every
  -- other source, and every interrupt of another core, reaches what it reached before. A core that has
  -- run `kernel_init` only reaches `kernel_release_handler` from its first mailbox, source 4.
  pub vectors_reach :
      (c src esr : ℕ)
      → src ≢ 0
      → src < 2 ^ 29
      → esr_ec esr ≡ esr_elx_ec_svc64
      → (interrupt_handler_sync core esr (start_vectors core (kernel_init h core m).tables)
          ≡ run (vector h.svc_handler))
        × (interrupt_handler_irq c src (start_vectors core (kernel_init h core m).tables) ≡ (
            if c == core
            then (if leb 5 (ffs src) && leb (ffs src) 8
                then run (vector null)
                else if ffs src == 2
                then run (vector h.timer_handler)
                else interrupt_handler_irq c src m.tables)
            else interrupt_handler_irq c src m.tables))
        × (interrupt_handler_irq core src (kernel_init h core m).tables ≡ (
            if ffs src == 5
            then run (vector h.kernel_release_handler)
            else if ffs src == 2
            then run (vector h.timer_handler)
            else interrupt_handler_irq core src m.tables))
  vectors_reach c src esr pos small svc = (
    sync_reach esr svc,
    irq_start core c src (kernel_init h core m).tables pos small
        ∙ (ap
              (λ t.
                if (c == core) && (leb 5 (ffs src) && leb (ffs src) 8)
                then run (vector null)
                else interrupt_handler_irq c src t)
              tables-init
            ∙ (ap
                  (λ r.
                    if (c == core) && (leb 5 (ffs src) && leb (ffs src) 8)
                    then run (vector null)
                    else r)
                  (irq_init c src pos small)
                ∙ both_stages (c == core) (ffs src) (run (vector null))
                    (run (vector h.kernel_release_handler)) (run (vector h.timer_handler))
                    (interrupt_handler_irq c src m.tables))),
    ap (interrupt_handler_irq core src) tables-init
        ∙ (irq_init core src pos small ∙ rw (==_refl core) refl),
  )
