-- ===== src/Links/Ring/Add.antt =====
-- `list_add` and `list_add_tail` of src/c/kernel/include/list.h on a circular list.
use mathlib.Core.List.{append-nil}
use rpi_kernel.Base.{
  ◌≡◌, ◌≢◌, false, some, List, [], ◌∷◌, ◌++◌, arith, ◌==◌, ◌∉◌, Distinct, has-append,
}
use rpi_kernel.Links.{
  Ptr, null, Links, get_next-ok, get_prev-ok, set_next-ok, set_prev-ok, list_add_between, list_add,
  list_add_tail,
}
use rpi_kernel.Links.Chain.{
  last, first, last-mem_append, first-mem_append, Chain-first, Chain-last, ne_of_mem,
}
use rpi_kernel.Links.Ring.{IsRing, SameOutside, Returns, inserted, Chain-inserted}

Distinct-insert :
    (x : Ptr) (ys zs : List Ptr) → Distinct (ys ++ zs) → x ∉ ys ++ zs → Distinct (ys ++ x ∷ zs)
Distinct-insert x [] zs d o = (o, d)
Distinct-insert x (y ∷ ys) zs d o = (
  ground (arith, has-append y ys zs, has-append y ys (x ∷ zs)),
  Distinct-insert x ys zs d.1 (ground arith),
)

module _ (h : Links) (x hd : Ptr) (ys zs : List Ptr) (ring : IsRing h hd (ys ++ zs)) where
  before_valid : (last hd ys == null) ≡ false
  before_valid =
      ground (arith, ne_of_mem null _ (hd ∷ ys ++ zs) (last-mem_append hd ys zs) ring.valid)

  after_valid : (first zs hd == null) ≡ false
  after_valid =
      ground (arith, ne_of_mem null _ (hd ∷ ys ++ zs) (first-mem_append hd ys zs) ring.valid)

  list_add_between_lem :
      x ≢ null
      → list_add_between x (last hd ys) (first zs hd) h
        ≡ some (tt, inserted h x (last hd ys) (first zs hd))
  unfolding list_add_between
  list_add_between_lem ne =
      let new_valid : (x == null) ≡ false = ground arith in
      rw (
        set_prev-ok (first zs hd) h after_valid x,
        set_next-ok x _ new_valid (first zs hd),
        set_prev-ok x _ new_valid (last hd ys),
        set_next-ok (last hd ys) _ before_valid x,
      )

  IsRing-inserted :
      x ∉ hd ∷ ys ++ zs
      → x ≢ null
      → IsRing (inserted h x (last hd ys) (first zs hd)) hd (ys ++ x ∷ zs)
  IsRing-inserted out ne = record {
    valid = ground (arith, ring.valid, has-append null ys zs, has-append null ys (x ∷ zs));
    distinct = (
      ground (arith, ring.distinct, has-append hd ys zs, has-append hd ys (x ∷ zs)),
      Distinct-insert x ys zs ring.distinct.1 (ground arith),
    );
    linked = Chain-inserted h x hd hd ys zs ring.linked ring.distinct ring.distinct (ground arith);
  }

  SameOutside-inserted : SameOutside (x ∷ hd ∷ ys ++ zs) h (inserted h x (last hd ys) (first zs hd))
  SameOutside-inserted p o =
      let nb = ne_of_mem p _ (hd ∷ ys ++ zs) (last-mem_append hd ys zs) (ground arith) in
      let na = ne_of_mem p _ (hd ∷ ys ++ zs) (first-mem_append hd ys zs) (ground arith) in
      (ground arith, ground arith)

module _ (h : Links) (x hd : Ptr) (xs : List Ptr) (ring : IsRing h hd xs) where
  -- `list_add` puts a node that is not NULL and not in the list in front of the others of a list,
  -- and writes only the links of the node and of the list.
  pub list_add_lem :
      x ∉ hd ∷ xs
      → x ≢ null
      → Returns (λ g. IsRing g hd (x ∷ xs) × SameOutside (x ∷ hd ∷ xs) h g) (list_add x hd h)
  unfolding list_add
  list_add_lem out ne = (
    inserted h x hd (first xs hd),
    rw (
      get_next-ok hd h (ground (arith, ring.valid)),
      Chain-first h hd hd xs ring.linked,
      list_add_between_lem h x hd [] xs ring ne,
    ),
    (IsRing-inserted h x hd [] xs ring out ne, SameOutside-inserted h x hd [] xs ring),
  )

  -- `list_add_tail` puts a node that is not NULL and not in the list behind the others of a list,
  -- and writes only the links of the node and of the list.
  pub list_add_tail_lem :
      x ∉ hd ∷ xs
      → x ≢ null
      → Returns
          (λ g. IsRing g hd (xs ++ x ∷ []) × SameOutside (x ∷ hd ∷ xs) h g)
          (list_add_tail x hd h)
  unfolding list_add_tail
  list_add_tail_lem out ne =
      let ring' : IsRing h hd (xs ++ []) = rw append-nil ring in
      (
        inserted h x (last hd xs) hd,
        rw (
          get_prev-ok hd h (ground (arith, ring.valid)),
          Chain-last h hd hd xs ring.linked,
          list_add_between_lem h x hd xs [] ring' ne,
        ),
        (
          IsRing-inserted h x hd xs [] ring' (rw append-nil out) ne,
          rw append-nil at (SameOutside-inserted h x hd xs [] ring'),
        ),
      )
