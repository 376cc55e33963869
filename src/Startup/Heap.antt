-- ===== src/Startup/Heap.antt =====
-- The blocks that `_sbrk` of src/c/cstubs.c gives out.
use rpi_kernel.Base.{
  ℕ, ◌+◌, ◌^◌, ◌<◌, ◌≤◌, ◌≡◌, refl, ap, ◌∙◌, true, false, List, [], ◌∷◌, arith, ◌==◌, if◌then◌else◌,
  ltb, int_to_u64, u64, Bool-cases, inl, inr,
}
use rpi_kernel.Links.{Ptr, null}
use rpi_kernel.Startup.{sbrk}

-- The requests of a program, one after the other: the blocks that are given, with their lengths.
abbrev pub granted : (heap_start heap_limit : Ptr) → List ℕ → (heap_end : Ptr) → List (Ptr × ℕ)
granted heap_start heap_limit [] heap_end = []
granted heap_start heap_limit (incr ∷ incrs) heap_end =
    let b = sbrk heap_start heap_limit incr heap_end in
    let rest = granted heap_start heap_limit incrs b.heap_end in
    if b.answer == null then rest else (b.answer, incr) ∷ rest

-- Blocks one behind the other between two addresses.
abbrev pub AreApart : (low high : Ptr) → List (Ptr × ℕ) → Type 0
AreApart low high [] = Unit
AreApart low high ((a, n) ∷ bs) = (low ≤ a) × (a + n ≤ high) × AreApart (a + n) high bs

-- No length is negative.
abbrev pub ArePositive : List ℕ → Type 0
ArePositive [] = Unit
ArePositive (n ∷ ns) = (n < 2 ^ 31) × ArePositive ns

-- Each block that fits before the limit, where the one before it ended.
abbrev pub carved : (low limit : Ptr) → List ℕ → List (Ptr × ℕ)
carved low limit [] = []
carved low limit (n ∷ ns) =
    let taken = carved (low + n) limit ns in
    let refused = carved low limit ns in if ltb limit (low + n) then refused else (low, n) ∷ taken

carved-AreApart : (ns : List ℕ) (low limit : Ptr) → AreApart low limit (carved low limit ns)
carved-AreApart [] low limit = tt
carved-AreApart (n ∷ ns) low limit = elim (Bool-cases (ltb limit (low + n))) [
  | inl over ↦ rw over (carved-AreApart ns low limit)
  | inr fits ↦ rw fits (omega arith, ground arith, carved-AreApart ns (low + n) limit)
]

module _ (heap_start heap_limit : Ptr) (real : 0 < heap_start)
    (word : heap_limit + 2 ^ 31 < 2 ^ 64) where
  -- Where the heap ends at present.
  abbrev pub top : Ptr → Ptr
  top heap_end = if heap_end == null then heap_start else heap_end

  module _ (incr heap_end : ℕ) (positive : incr < 2 ^ 31) (within : top heap_end ≤ heap_limit) where
    moved : u64 (top heap_end + int_to_u64 incr) ≡ top heap_end + incr
    moved = let plain : int_to_u64 incr ≡ incr = ground arith in rw plain (omega arith)

    sbrk-refuses :
        ltb heap_limit (top heap_end + incr) ≡ true
        → sbrk heap_start heap_limit incr heap_end
          ≡ record { answer = null; heap_end = top heap_end }
    unfolding sbrk
    sbrk-refuses over = rw (moved, over) refl

    sbrk-gives :
        ltb heap_limit (top heap_end + incr) ≡ false
        → sbrk heap_start heap_limit incr heap_end
          ≡ record { answer = top heap_end; heap_end = top heap_end + incr }
    unfolding sbrk
    sbrk-gives fits = rw (moved, fits) refl

  granted-carved :
      (incrs : List ℕ) (heap_end : Ptr)
      → ArePositive incrs
      → top heap_end ≤ heap_limit
      → granted heap_start heap_limit incrs heap_end ≡ carved (top heap_end) heap_limit incrs
  granted-carved [] heap_end positive within = refl
  granted-carved (incr ∷ incrs) heap_end (p, ps) within =
      let low = top heap_end in
      let some_top : top low ≡ low = ground arith in
      elim (Bool-cases (ltb heap_limit (low + incr))) [
        | inl over ↦
            rw (sbrk-refuses incr heap_end p within over, over)
              (granted-carved incrs low ps (omega (arith, some_top))
                ∙ ap (λ l. carved l heap_limit incrs) some_top)
        | inr fits ↦
            let given : (low == null) ≡ false = ground arith in
            let next_top : top (low + incr) ≡ low + incr = ground arith in
            rw (sbrk-gives incr heap_end p within fits, fits, given)
              (ap (λ bs. (low, incr) ∷ bs)
                (granted-carved incrs (low + incr) ps (ground arith)
                  ∙ ap (λ l. carved l heap_limit incrs) next_top))
      ]

  -- From the first call on, and for lengths that are no negative ints: `_sbrk` gives each block that fits
  -- before the end of the heap, where the one before it ended, refuses the others, and goes on after a
  -- refusal as if there had been none. So the blocks lie in the heap, one behind the other, and no two of
  -- them share a byte.
  pub sbrk_blocks :
      (incrs : List ℕ)
      → ArePositive incrs
      → heap_start ≤ heap_limit
      → (granted heap_start heap_limit incrs null ≡ carved heap_start heap_limit incrs)
        × AreApart heap_start heap_limit (granted heap_start heap_limit incrs null)
  sbrk_blocks incrs positive order =
      let same = granted-carved incrs null positive order in
      (same, rw same (carved-AreApart incrs heap_start heap_limit))
