-- ===== src/Sched/Invariant.antt =====
-- What holds of all queues between the calls of src/c/kernel/dispatch.c: a process is linked to one
-- list at most, and the length that a ready queue keeps is the number of its processes.
pub mod Keep
pub mod Evolve
pub mod Wake
pub mod Handled
pub mod Pull
use rpi_kernel.Base.{
  ℕ, zero, suc, ◌+◌, ◌≡◌, refl, ap, ◌∙◌, sym, ◌≢◌, Bool, true, false, List, [], ◌∷◌, ◌++◌, ◌==◌,
  ◌&&◌, ◌||◌, arith, if◌then◌else◌, u32, update_key, remove, remove_absent, has, ◌∈◌, ◌∉◌,
  has-append, has-remove, Distinct, Distinct-remove, length, length-append, length-remove,
  length-remove_absent, Bool-cases, inl, inr, eq_of_same, ==_iff,
}
use rpi_kernel.Config.{Priority, idle, low, med, high, same_priority}
use rpi_kernel.Links.{Ptr}
use rpi_kernel.State.{State, Head, ready_at, same_head, head_key}
use rpi_kernel.Sched.{queue_length}

-- No process is linked twice.
pub record IsPartition (lists : Head → List Ptr) : Type 0 where
  pub once : (p : Ptr) (a b : Head) → p ∈ lists a → p ∈ lists b → a ≡ b
  pub distinct : (a : Head) → Distinct (lists a)

-- How many processes are ready on a core.
abbrev pub waiting : (Head → List Ptr) → ℕ → ℕ
waiting lists c =
    length (lists (ready_at c idle))
    + length (lists (ready_at c low))
    + length (lists (ready_at c med))
    + length (lists (ready_at c high))

pub record IsQueued (s : State) : Type 0 where
  pub partition : IsPartition s.lists
  pub counted : (c : ℕ) → queue_length s c ≡ u32 (waiting s.lists c)

-- The process is linked to no list.
abbrev pub Detached : Ptr → State → Type 0
Detached p s = (a : Head) → p ∉ s.lists a

abbrev pub removed : Ptr → (Head → List Ptr) → Head → List Ptr
removed p lists a = remove p (lists a)

abbrev pub placed : Ptr → Head → (Head → List Ptr) → Head → List Ptr
placed p hd lists = update_key (removed p lists) hd (remove p (lists hd) ++ p ∷ [])

pub Distinct-append : (p : Ptr) (xs : List Ptr) → Distinct xs → p ∉ xs → Distinct (xs ++ p ∷ [])
Distinct-append p [] d out = (refl, tt)
Distinct-append p (x ∷ xs) d out =
    (has-append x xs (p ∷ []) ∙ ground (arith, d), Distinct-append p xs d.1 (ground arith))

-- Four numbers of which one is greater by one.
sum_one :
    (b : Bool) (r : Priority) (x y : Priority → ℕ)
    → ((q : Priority) → y q ≡ x q + (if b && same_priority q r then 1 else 0))
    → y idle + y low + y med + y high ≡ x idle + x low + x med + x high + (if b then 1 else 0)
sum_one false r x y h = omega (arith, h idle, h low, h med, h high)
sum_one true idle x y h = omega (arith, h idle, h low, h med, h high)
sum_one true low x y h = omega (arith, h idle, h low, h med, h high)
sum_one true med x y h = omega (arith, h idle, h low, h med, h high)
sum_one true high x y h = omega (arith, h idle, h low, h med, h high)

pub differ : (a b : Head) → same_head a b ≡ false → a ≢ b
differ a b d e = cc ((head_key.same_iff a b).1 e)

module _ (lists : Head → List Ptr) (p : Ptr) where
  pub has-removed :
      (q : Ptr) (a : Head) → has q (removed p lists a) ≡ (if q == p then false else has q (lists a))
  has-removed q a = has-remove q p (lists a)

  pub has-placed :
      (hd : Head) (q : Ptr) (a : Head)
      → has q (placed p hd lists a) ≡ (if q == p then same_head a hd else has q (lists a))
  has-placed hd q a = elim (Bool-cases (same_head a hd)) [
    | inl e ↦
        rw (e, eq_of_same a hd e)
          (has-append q (remove p (lists hd)) (p ∷ []) ∙ ground (arith, has-remove q p (lists hd)))
    | inr d ↦ rw d (has-remove q p (lists a))
  ]

  pub removed-IsPartition : IsPartition lists → IsPartition (removed p lists)
  removed-IsPartition part = record {
    once = λ q a b i j.
        part.once q a b (ground (arith, has-removed q a)) (ground (arith, has-removed q b));
    distinct = λ a. Distinct-remove p (lists a) (part.distinct a);
  }

  pub placed-IsPartition : (hd : Head) → IsPartition lists → IsPartition (placed p hd lists)
  placed-IsPartition hd part = record {
    once = λ q a b i j. elim (Bool-cases (q == p)) [
      | inl e ↦
          let m = has-placed hd q a in
          let n = has-placed hd q b in
          eq_of_same a hd (ground arith) ∙ sym (eq_of_same b hd (ground arith))
      | inr d ↦
          let m = has-placed hd q a in
          let n = has-placed hd q b in part.once q a b (ground arith) (ground arith)
    ];
    distinct = λ a. elim (Bool-cases (same_head a hd)) [
      | inl e ↦ rw e (
          Distinct-append p (remove p (lists hd)) (Distinct-remove p (lists hd) (part.distinct hd))
            (has-remove p p (lists hd) ∙ ground arith))
      | inr d ↦ rw d (Distinct-remove p (lists a) (part.distinct a))
    ];
  }

  length-placed :
      ((a : Head) → p ∉ lists a)
      → (hd a : Head)
      → length (placed p hd lists a) ≡ length (lists a) + (if same_head a hd then 1 else 0)
  length-placed out hd a = elim (Bool-cases (same_head a hd)) [
    | inl e ↦
        rw (e, eq_of_same a hd e)
          (length-append (remove p (lists hd)) (p ∷ [])
            ∙ omega (arith, length-remove_absent p (lists hd) (out hd)))
    | inr d ↦ rw d (omega (arith, length-remove_absent p (lists a) (out a)))
  ]

  pub waiting-placed :
      ((a : Head) → p ∉ lists a)
      → (t : ℕ) (r : Priority) (c : ℕ)
      → waiting (placed p (ready_at t r) lists) c ≡ waiting lists c + (if c == t then 1 else 0)
  waiting-placed out t r c =
      sum_one (c == t) r (λ q. length (lists (ready_at c q)))
        (λ q. length (placed p (ready_at t r) lists (ready_at c q)))
        (λ q. length-placed out (ready_at t r) (ready_at c q))

  length-removed :
      IsPartition lists
      → (hd : Head) → p ∈ lists hd
      → (a : Head)
      → length (lists a) ≡ length (removed p lists a) + (if same_head a hd then 1 else 0)
  length-removed part hd i a = elim (Bool-cases (same_head a hd)) [
    | inl e ↦ rw (e, eq_of_same a hd e) (sym (length-remove p (lists hd) (part.distinct hd) i))
    | inr d ↦
        let out : p ∉ lists a = elim (Bool-cases (has p (lists a))) [
          | inl there ↦ absurd (differ a hd d (part.once p a hd there i))
          | inr absent ↦ absent
        ] in
        rw d (omega (arith, length-remove_absent p (lists a) out))
  ]

  pub waiting-removed :
      IsPartition lists
      → (t : ℕ) (r : Priority) → p ∈ lists (ready_at t r)
      → (c : ℕ) → waiting lists c ≡ waiting (removed p lists) c + (if c == t then 1 else 0)
  waiting-removed part t r i c =
      sum_one (c == t) r (λ q. length (removed p lists (ready_at c q)))
        (λ q. length (lists (ready_at c q)))
        (λ q. length-removed part (ready_at t r) i (ready_at c q))
