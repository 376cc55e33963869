-- ===== src/Links/Ring/Delete.antt =====
-- `list_del` and `list_del_init` of src/c/kernel/include/list.h on a member of a circular list.
use rpi_kernel.Base.{
  ◌≡◌, false, some, refl, List, [], ◌∷◌, ◌++◌, arith, ◌==◌, ◌∈◌, ◌∉◌, Distinct, update, has-append,
}
use rpi_kernel.Links.{
  Ptr, null, Links, get_next-ok, get_prev-ok, set_next-ok, set_prev-ok, init_list_head, list_unlink,
  list_del, list_del_init,
}
use rpi_kernel.Links.Chain.{
  last, first, last-mem_append, first-mem_append, Chain-first, Chain-last, Chain-split, Chain-frame,
  ne_of_mem,
}
use rpi_kernel.Links.Ring.{IsRing, SameOutside, Returns, joined, Chain-joined}

Distinct-middle :
    (x : Ptr) (ys zs : List Ptr) → Distinct (ys ++ x ∷ zs) → Distinct (ys ++ zs) × (x ∉ ys ++ zs)
Distinct-middle x [] zs d = (d.1, d.0)
Distinct-middle x (y ∷ ys) zs d =
    let (rest, out) = Distinct-middle x ys zs d.1 in
    (
      ground (arith, has-append y ys zs, has-append y ys (x ∷ zs)),
      ground (arith, has-append y ys (x ∷ zs)),
    )

-- A ring keeps its shape when the links of other nodes change.
pub IsRing-frame :
    (h g : Links) (hd : Ptr) (xs : List Ptr)
    → ((p : Ptr) → p ∈ hd ∷ xs → (g.next p ≡ h.next p) × (g.prev p ≡ h.prev p))
    → IsRing h hd xs
    → IsRing g hd xs
IsRing-frame h g hd xs same r = record {
  valid = r.valid;
  distinct = r.distinct;
  linked = Chain-frame h g hd hd xs (λ p i. (same p i).0) (λ p i. (same p i).1) r.linked;
}

-- The links of one node overwritten.
abbrev pub relinked : Links → Ptr → (after before : Ptr) → Links
relinked h x after before = record { next = update h.next x after; prev = update h.prev x before }

module _ (h : Links) (x hd : Ptr) (ys zs : List Ptr) (ring : IsRing h hd (ys ++ x ∷ zs)) where
  abbrev after_unlink : Links
  after_unlink = joined h (last hd ys) (first zs hd)

  apart : (x ∉ hd ∷ ys ++ zs) × Distinct (hd ∷ ys ++ zs)
  apart =
      let (rest, out) = Distinct-middle x ys zs ring.distinct.1 in
      (
        ground (arith, ring.distinct.0, has-append hd ys (x ∷ zs)),
        (ground (arith, ring.distinct.0, has-append hd ys (x ∷ zs), has-append hd ys zs), rest),
      )

  entry_valid : (x == null) ≡ false
  entry_valid = ground (arith, ring.valid, has-append null ys (x ∷ zs))

  valid_rest : null ∉ hd ∷ ys ++ zs
  valid_rest = ground (arith, ring.valid, has-append null ys (x ∷ zs), has-append null ys zs)

  before_valid : (last hd ys == null) ≡ false
  before_valid =
      ground (arith, ne_of_mem null _ (hd ∷ ys ++ zs) (last-mem_append hd ys zs) valid_rest)

  after_valid : (first zs hd == null) ≡ false
  after_valid =
      ground (arith, ne_of_mem null _ (hd ∷ ys ++ zs) (first-mem_append hd ys zs) valid_rest)

  before_lem : h.prev x ≡ last hd ys
  before_lem = Chain-last h hd x ys (Chain-split h hd hd x ys zs ring.linked).0

  after_lem : h.next x ≡ first zs hd
  after_lem = Chain-first h x hd zs (Chain-split h hd hd x ys zs ring.linked).1

  list_unlink_lem : list_unlink (last hd ys) (first zs hd) h ≡ some (tt, after_unlink)
  unfolding list_unlink
  list_unlink_lem = rw (
    set_prev-ok (first zs hd) h after_valid (last hd ys),
    set_next-ok (last hd ys) _ before_valid (first zs hd),
  )

  IsRing-joined : IsRing after_unlink hd (ys ++ zs)
  IsRing-joined = record {
    valid = valid_rest;
    distinct = apart.1;
    linked = Chain-joined h x hd hd ys zs ring.linked ring.distinct ring.distinct;
  }

  IsRing-relinked :
      (after before : Ptr) → IsRing (relinked after_unlink x after before) hd (ys ++ zs)
  IsRing-relinked after before =
      IsRing-frame after_unlink _ hd (ys ++ zs)
        (λ p i. let ne = ne_of_mem x p (hd ∷ ys ++ zs) i apart.0 in (ground arith, ground arith))
        IsRing-joined

  SameOutside-relinked :
      (after before : Ptr)
      → SameOutside (x ∷ hd ∷ ys ++ zs) h (relinked after_unlink x after before)
  SameOutside-relinked after before p o =
      let nb = ne_of_mem p _ (hd ∷ ys ++ zs) (last-mem_append hd ys zs) (ground arith) in
      let na = ne_of_mem p _ (hd ∷ ys ++ zs) (first-mem_append hd ys zs) (ground arith) in
      (ground arith, ground arith)

  -- `list_del` takes a member out of its list, wherever it stands, and poisons its links with NULL.
  pub list_del_lem :
      Returns
        (λ g.
          IsRing g hd (ys ++ zs)
          × (g.next x ≡ null)
          × (g.prev x ≡ null)
          × SameOutside (x ∷ hd ∷ ys ++ zs) h g)
        (list_del x h)
  unfolding list_del
  list_del_lem = (
    relinked after_unlink x null null,
    rw (
      get_prev-ok x h entry_valid,
      get_next-ok x h entry_valid,
      before_lem,
      after_lem,
      list_unlink_lem,
      set_next-ok x _ entry_valid null,
      set_prev-ok x _ entry_valid null,
    ),
    (IsRing-relinked null null, ground arith, ground arith, SameOutside-relinked null null),
  )

  -- `list_del_init` takes a member out of its list, wherever it stands, leaves it as an empty list
  -- of its own, and writes only the links of the list.
  pub list_del_init_lem :
      Returns
        (λ g. IsRing g hd (ys ++ zs) × IsRing g x [] × SameOutside (x ∷ hd ∷ ys ++ zs) h g)
        (list_del_init x h)
  unfolding list_del_init init_list_head
  list_del_init_lem = (
    relinked after_unlink x x x,
    rw (
      get_prev-ok x h entry_valid,
      get_next-ok x h entry_valid,
      before_lem,
      after_lem,
      list_unlink_lem,
      set_next-ok x _ entry_valid x,
      set_prev-ok x _ entry_valid x,
    ),
    (
      IsRing-relinked x x,
      record {
        valid = ground (arith, entry_valid);
        distinct = (refl, tt);
        linked = (ground arith, ground arith);
      },
      SameOutside-relinked x x,
    ),
  )

-- On a node that is in no list `list_del_init` changes no link.
pub list_del_init_detached :
    (h : Links) (x : Ptr)
    → IsRing h x []
    → Returns (λ g. (p : Ptr) → (g.next p ≡ h.next p) × (g.prev p ≡ h.prev p)) (list_del_init x h)
unfolding list_del_init list_unlink init_list_head
list_del_init_detached h x r =
    let valid : (x == null) ≡ false = ground (arith, r.valid) in
    (
      relinked (joined h x x) x x x,
      rw (
        get_prev-ok x h valid,
        get_next-ok x h valid,
        r.linked.0,
        r.linked.1,
        set_prev-ok x h valid x,
        set_next-ok x _ valid x,
        set_next-ok x _ valid x,
        set_prev-ok x _ valid x,
      ),
      λ p. (ground (arith, r.linked), ground (arith, r.linked)),
    )
