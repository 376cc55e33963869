-- ===== src/Links/Family.antt =====
-- Many disjoint circular lists in one memory: what list.h does to all of them at once.
use rpi_kernel.Base.{
  ◌≡◌, ◌≢◌, false, sym, ap, fun_ext, subst, List, [], ◌∷◌, ◌++◌, arith, ◌==◌, ◌∈◌, ◌∉◌, inl, inr,
  ◌∙◌, Distinct, ==_iff, has, has-append, has-remove, remove, remove_absent, split_at, Bool-cases,
  Key, same, eq_of_same, update_key,
}
use rpi_kernel.Links.{Ptr, null, Links, M, ◌>>◌, list_add, list_add_tail, list_del_init}
use rpi_kernel.Links.Chain.{ne_of_mem}
use rpi_kernel.Links.Ring.{IsRing, SameOutside, Returns}
use rpi_kernel.Links.Ring.Add.{list_add_lem, list_add_tail_lem}
use rpi_kernel.Links.Ring.Delete.{IsRing-frame, list_del_init_lem, list_del_init_detached}

-- A node that is in none of the lists.
abbrev pub Free : {K : Type 0} → (K → Ptr) → (K → List Ptr) → Ptr → Type 0
Free {K} address lists x = (k : K) → x ∉ address k ∷ lists k

-- At the address of each key stands a circular list, and no two share a node.
pub record IsFamily {K : Type 0} (address : K → Ptr) (lists : K → List Ptr) (h : Links)
    : Type 0 where
  pub ring : (k : K) → IsRing h (address k) (lists k)
  pub apart : (k j : K) → k ≢ j → (p : Ptr) → p ∈ address k ∷ lists k → p ∉ address j ∷ lists j

remove_middle :
    (x : Ptr) (ys zs : List Ptr)
    → x ∉ ys
    → Distinct (ys ++ x ∷ zs)
    → remove x (ys ++ x ∷ zs) ≡ ys ++ zs
remove_middle x [] zs o d = ground (arith, remove_absent x zs)
remove_middle x (y ∷ ys) zs o d = ground (arith, remove_middle x ys zs (ground arith) d.1)

-- Where a list loses nothing but `x` or gains nothing but `x`, it stays disjoint from the others.
disjoint_left :
    (p a b x : Ptr) (xs ls js : List Ptr)
    → p ∈ a ∷ xs
    → (p ∈ xs → p ∈ x ∷ ls)
    → (p ∈ a ∷ ls → p ∉ b ∷ js)
    → x ∉ b ∷ js
    → p ∉ b ∷ js
disjoint_left p a b x xs ls js m sub apart out = elim (Bool-cases (p == x)) [
  | inl e ↦ subst (λ q. q ∉ b ∷ js) (sym ((==_iff p x).0 e)) out
  | inr n ↦ apart (ground (arith, sub))
]

disjoint_right :
    (p a x : Ptr) (xs ls is : List Ptr)
    → p ∈ is
    → (p ∈ xs → p ∈ x ∷ ls)
    → p ∉ a ∷ ls
    → x ∉ is
    → p ∉ a ∷ xs
disjoint_right p a x xs ls is m sub out ox =
    let ne = ne_of_mem x p is m ox in ground (arith, Bool-cases (has p xs), sub)

module _ {K : Type 0} ⦃key : Key K⦄ (address : K → Ptr) (lists : K → List Ptr) (h : Links) where
  module _ (family : IsFamily address lists h) (k : K) where
    ne_of_differ : (j : K) → same j k ≡ false → j ≢ k
    ne_of_differ j d e = cc ((key.same_iff j k).1 e)

    -- The other lists stay, where a command writes only the links of `x` and of the list of `k`.
    others :
        (g : Links) (x : Ptr)
        → ((j : K) → same j k ≡ false → x ∉ address j ∷ lists j)
        → SameOutside (x ∷ address k ∷ lists k) h g
        → (j : K) → same j k ≡ false
        → IsRing g (address j) (lists j)
    others g x out frame j d =
        IsRing-frame h g (address j) (lists j)
          (λ p i. frame p (ground (arith, out j d, family.apart j k (ne_of_differ j d) p i)))
          (family.ring j)

    -- A family in which only the list of `k` is another.
    IsFamily-update :
        (g : Links) (x : Ptr) (xs : List Ptr)
        → ((j : K) → same j k ≡ false → x ∉ address j ∷ lists j)
        → ((p : Ptr) → p ∈ xs → p ∈ x ∷ lists k)
        → SameOutside (x ∷ address k ∷ lists k) h g
        → IsRing g (address k) xs
        → IsFamily address (update_key lists k xs) g
    IsFamily-update g x xs out sub frame r = record {
      ring = λ j. elim (Bool-cases (same j k)) [
        | inl e ↦ rw (e, eq_of_same j k e) r
        | inr d ↦ rw d (others g x out frame j d)
      ];
      apart = λ i j ne p m. elim (Bool-cases (same i k)) [
        | inl e ↦ elim (Bool-cases (same j k)) [
          | inl e' ↦ absurd (ne (eq_of_same i k e ∙ sym (eq_of_same j k e')))
          | inr d' ↦
              let m' : p ∈ address k ∷ xs = rw (eq_of_same i k e) at (rw e at m) in
              rw d' (
                disjoint_left p (address k) (address j) x xs (lists k) (lists j) m' (sub p)
                  (family.apart k j (λ q. ne_of_differ j d' (sym q)) p) (out j d'))
        ]
        | inr d ↦ elim (Bool-cases (same j k)) [
          | inl e' ↦
              let m' : p ∈ address i ∷ lists i = rw d at m in
              rw (e', eq_of_same j k e')
                (disjoint_right p (address k) x xs (lists k) (address i ∷ lists i) m' (sub p)
                  (family.apart i k (ne_of_differ i d) p m') (out i d))
          | inr d' ↦ rw d' (family.apart i j ne p (rw d at m))
        ]
      ];
    }

    -- `list_add_tail` of a node that is not NULL and in none of the lists appends it to one list
    -- and leaves the others as they are.
    pub list_add_tail-IsFamily :
        (x : Ptr)
        → Free address lists x
        → x ≢ null
        → Returns
            (IsFamily address (update_key lists k (lists k ++ x ∷ [])))
            (list_add_tail x (address k) h)
    list_add_tail-IsFamily x free ne =
        let (g, run, p) = list_add_tail_lem h x (address k) (lists k) (family.ring k) (free k) ne in
        (
          g,
          run,
          IsFamily-update g x _ (λ j d. free j)
              (λ q i. ground (arith, has-append q (lists k) (x ∷ []))) p.1 p.0,
        )

    -- `list_add` of a node that is not NULL and in none of the lists puts it in front of one list
    -- and leaves the others as they are.
    pub list_add-IsFamily :
        (x : Ptr)
        → Free address lists x
        → x ≢ null
        → Returns (IsFamily address (update_key lists k (x ∷ lists k))) (list_add x (address k) h)
    list_add-IsFamily x free ne =
        let (g, run, p) = list_add_lem h x (address k) (lists k) (family.ring k) (free k) ne in
        (g, run, IsFamily-update g x _ (λ j d. free j) (λ q i. i) p.1 p.0)

    -- A member of one list is in no other.
    elsewhere : (x : Ptr) → x ∈ lists k → (j : K) → same j k ≡ false → x ∉ address j ∷ lists j
    elsewhere x i j d = family.apart k j (λ q. ne_of_differ j d (sym q)) x (ground arith)

    update_remove :
        (x : Ptr)
        → x ∈ lists k
        → update_key lists k (remove x (lists k)) ≡ (λ j. remove x (lists j))
    update_remove x i = fun_ext λ j. elim (Bool-cases (same j k)) [
      | inl e ↦ rw (e, eq_of_same j k e)
      | inr d ↦ rw (d, remove_absent x (lists j) (ground (arith, elsewhere x i j d)))
    ]

    -- `list_del_init` of a member takes it out of whichever list holds it.
    pub list_del_init-IsFamily :
        (x : Ptr)
        → x ∈ lists k
        → Returns
            (λ g. IsFamily address (λ j. remove x (lists j)) g × IsRing g x [])
            (list_del_init x h)
    list_del_init-IsFamily x i =
        unlink (split_at x (lists k) i).0 (split_at x (lists k) i).1 (split_at x (lists k) i).2
          (split_at x (lists k) i).3
      where
        unlink :
            (ys zs : List Ptr)
            → lists k ≡ ys ++ x ∷ zs
            → x ∉ ys
            → Returns
                (λ g. IsFamily address (λ j. remove x (lists j)) g × IsRing g x [])
                (list_del_init x h)
        unlink ys zs e o =
            let ring' : IsRing h (address k) (ys ++ x ∷ zs) = rw e at (family.ring k) in
            let gone : ys ++ zs ≡ remove x (lists k) =
              rw e (sym (remove_middle x ys zs o ring'.distinct.1)) in
            let (g, run, p) = list_del_init_lem h x (address k) ys zs ring' in
            (
              g,
              run,
              (
                rw (← update_remove x i) (
                    IsFamily-update g x (remove x (lists k)) (elsewhere x i)
                      (λ q m. ground (arith, has-remove q x (lists k)))
                      (λ q out. p.2 q (ground (arith, has-remove q x (lists k), ap (has q) gone)))
                      (rw gone at p.0)),
                p.1,
              ),
            )

-- `list_del_init(x); list_add_tail(x, head)`, as `ready` and `sleep_on_locked` move a process.
unfoldable pub requeue : Ptr → Ptr → M (Unit {0})
requeue x head = do list_del_init x; list_add_tail x head

module _ {K : Type 0} ⦃key : Key K⦄ (address : K → Ptr) (lists : K → List Ptr) (h : Links) where
  abbrev pub requeued : Ptr → K → K → List Ptr
  requeued x k = update_key (λ j. remove x (lists j)) k (remove x (lists k) ++ x ∷ [])

  module _ (family : IsFamily address lists h) (x : Ptr) (k : K) where
    remove-Free : (j : K) → x ∈ lists j → Free address (λ i. remove x (lists i)) x
    remove-Free j m i = elim (Bool-cases (same i j)) [
      | inl e ↦
          subst (λ q. x ∉ address q ∷ remove x (lists q)) (sym (eq_of_same i j e))
            (ground (
              arith,
              (family.ring j).distinct.0,
              has-remove x x (lists j),
              ne_of_mem (address j) x (lists j),
            ))
      | inr d ↦ ground (arith, elsewhere address lists h family j x m i d, has-remove x x (lists i))
    ]

    -- `list_del_init` and `list_add_tail` of a member of one of the lists put it at the end of its
    -- new list, which may be the old one, and take it out of the old one. The other lists stay.
    pub requeue_member :
        (j : K) → x ∈ lists j → Returns (IsFamily address (requeued x k)) (requeue x (address k) h)
    unfolding requeue
    requeue_member j m =
        let (g, run, p) = list_del_init-IsFamily address lists h family j x m in
        let (g', run', p') =
          list_add_tail-IsFamily address (λ i. remove x (lists i)) g p.0 k x (remove-Free j m)
            (ground (arith, ne_of_mem null x (address j ∷ lists j), (family.ring j).valid)) in
        (g', rw (run, run'), p')

    -- `list_del_init` and `list_add_tail` of a node that is in none of the lists and linked to
    -- itself append it to its new list. The other lists stay.
    pub requeue_detached :
        Free address lists x
        → IsRing h x []
        → Returns (IsFamily address (requeued x k)) (requeue x (address k) h)
    unfolding requeue
    requeue_detached free self =
        let (g, run, same_links) = list_del_init_detached h x self in
        let gone : (λ i. remove x (lists i)) ≡ lists =
          fun_ext λ i. remove_absent x (lists i) (ground (arith, free i)) in
        let kept : IsFamily address lists g = record {
          ring = λ i. IsRing-frame h g (address i) (lists i) (λ p _. same_links p) (family.ring i);
          apart = family.apart;
        } in
        let (g', run', p') =
          list_add_tail-IsFamily address lists g kept k x free (ground (arith, self.valid)) in
        (g', rw (run, run'), rw (← gone) at p')
