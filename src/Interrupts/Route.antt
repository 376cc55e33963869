-- ===== src/Interrupts/Route.antt =====
-- Which handler an interrupt reaches: src/c/interrupts.c.
use native.Mathlib.Nat.{pow-suc}
use rpi_kernel.Base.{
  ℕ, zero, suc, ◌+◌, ◌-◌, ◌*◌, ◌/◌, ◌%◌, ◌^◌, ◌≤◌, ◌<◌, ◌≡◌, ◌≢◌, refl, ap, ◌∙◌, Bool, true, false,
  arith, ◌==◌, if◌then◌else◌, ◌&&◌, ==_iff, ==_refl, Bool-cases, inl, inr,
}
use rpi_kernel.Interrupts.{
  Vector, Tables, int_entries, run, register_interrupt_handler, ffs_loop, ffs,
  interrupt_handler_irq,
}

ffs_range :
    (w left i x : ℕ)
    → w ≤ left
    → x < 2 ^ w
    → x ≢ 0
    → (i < ffs_loop left i x) × (ffs_loop left i x ≤ i + w)
unfolding ffs_loop
ffs_range zero left i x le small pos = absurd (omega arith)
ffs_range (suc w) zero i x le small pos = absurd (omega arith)
ffs_range (suc w) (suc left) i x le small pos = elim (Bool-cases (x % 2 == 1)) [
  | inl odd ↦ rw odd (omega arith, omega arith)
  | inr even ↦
      let rest =
        ffs_range w left (suc i) (x / 2) (omega arith) (omega (arith, pow-suc 2 w))
          (ground arith) in
      rw even (omega (arith, rest.0), omega (arith, rest.1))
]

-- An entry of one core is no entry of another.
slot :
    (core c entry r : ℕ)
    → entry < 29
    → 0 < r
    → r ≤ 29
    → (c * 29 + (r - 1) == core * 29 + entry) ≡ ((c == core) && (r == suc entry))
slot core c entry r a b d = elim (Bool-cases ((c == core) && (r == suc entry))) [
  | inl hit ↦
      let e : c ≡ core = ground arith in
      let f : r ≡ suc entry = ground arith in
      let at : c * 29 + (r - 1) ≡ core * 29 + entry = omega arith in
      rw (hit, at) (==_refl (core * 29 + entry))
  | inr miss ↦ elim (Bool-cases (c * 29 + (r - 1) == core * 29 + entry)) [
    | inl same_slot ↦
        let at : c * 29 + (r - 1) ≡ core * 29 + entry = (==_iff _ _).0 same_slot in
        let e : c ≡ core = omega arith in
        let f : r ≡ suc entry = omega arith in absurd (ground arith)
    | inr other ↦ rw (other, miss)
  ]
]

run-if : (b : Bool) (v w : Vector) → run (if b then v else w) ≡ (if b then run v else run w)
run-if true v w = refl
run-if false v w = refl

module _ (core entry c src : ℕ) (vec : Vector) (t : Tables) where
  abbrev found : Vector
  found =
      if (c == core) && (ffs src == suc entry) then vec else t.int (c * int_entries + (ffs src - 1))

  registered_entry :
      entry < int_entries
      → src ≢ 0
      → src < 2 ^ 29
      → (register_interrupt_handler core false entry vec t).int (c * int_entries + (ffs src - 1))
        ≡ found
  unfolding register_interrupt_handler ffs
  registered_entry in_table pos small =
      let range = ffs_range 29 32 0 src (omega arith) small pos in
      rw (slot core c entry (ffs_loop 32 0 src) in_table range.0 range.1)

  -- After a handler was registered for an entry of a core, an interrupt of that core whose lowest
  -- pending source is the entry calls it, and every other interrupt calls what it called before. The
  -- pending sources are some of the 29 that a core has entries for.
  pub route_interrupt :
      entry < int_entries
      → src ≢ 0
      → src < 2 ^ 29
      → interrupt_handler_irq c src (register_interrupt_handler core false entry vec t)
        ≡ (if (c == core) && (ffs src == suc entry) then run vec else interrupt_handler_irq c src t)
  unfolding interrupt_handler_irq
  route_interrupt in_table pos small =
      let some_source : (src == 0) ≡ false = ground arith in
      rw some_source (
        ap run (registered_entry in_table pos small)
        ∙ run-if ((c == core) && (ffs src == suc entry)) vec
            (t.int (c * int_entries + (ffs src - 1))))
