-- ===== src/Links/Ring.antt =====
-- Insertion into a circular list and deletion from it, at any position.
pub mod Add
pub mod Delete
use rpi_kernel.Base.{
  ◌≡◌, ◌≢◌, List, [], ◌∷◌, ◌++◌, arith, ◌∈◌, ◌∉◌, Distinct, update, has-append, Option, some, refl,
  ==_iff,
}
use rpi_kernel.Links.{Ptr, null, Links}
use rpi_kernel.Links.Chain.{
  Chain, last, first, last-mem, first-mem, Chain-frame, ne_of_mem, last-mem_append,
}

-- `hd` is the head of a circular list of the nodes `xs`.
pub record IsRing (h : Links) (hd : Ptr) (xs : List Ptr) : Type 0 where
  pub valid : null ∉ hd ∷ xs
  pub distinct : Distinct (hd ∷ xs)
  pub linked : Chain h hd xs hd

-- The links of the nodes outside `xs` are those of `h`.
abbrev pub SameOutside : List Ptr → Links → Links → Type 0
SameOutside xs h g = (p : Ptr) → p ∉ xs → (g.next p ≡ h.next p) × (g.prev p ≡ h.prev p)

-- The command returns, in a state with the property.
abbrev pub Returns : (Links → Type 0) → Option (Unit {0} × Links) → Type 0
Returns P r = (g : Links) × (r ≡ some (tt, g)) × P g

-- The links after `x` is put between `before` and `after`.
abbrev pub inserted : Links → Ptr → (before after : Ptr) → Links
inserted h x before after = record {
  next = update (update h.next x after) before x;
  prev = update (update h.prev after x) x before;
}

-- The links after `before` and `after` are joined.
abbrev pub joined : Links → (before after : Ptr) → Links
joined h before after = record {
  next = update h.next before after;
  prev = update h.prev after before;
}

module _ (h : Links) (x b : Ptr) where
  pub Chain-inserted :
      (a : Ptr) (ys zs : List Ptr)
      → Chain h a (ys ++ zs) b
      → Distinct (a ∷ ys ++ zs)
      → Distinct (b ∷ ys ++ zs)
      → x ∉ a ∷ b ∷ ys ++ zs
      → Chain (inserted h x (last a ys) (first zs b)) a (ys ++ x ∷ zs) b
  Chain-inserted a [] [] c da db out = (ground arith, ground arith, (ground arith, ground arith))
  Chain-inserted a [] (z ∷ zs) c da db out = (
    ground arith,
    ground arith,
    (
      ground arith,
      ground arith,
      Chain-frame h _ z b zs (λ p i. ground arith) (λ p i. ground arith) c.2,
    ),
  )
  Chain-inserted a (y ∷ ys) zs c da db out = (
    ground (arith, ne_of_mem a (last y ys) (y ∷ ys ++ zs) (last-mem_append y ys zs) da.0),
    ground (arith, first-mem b zs, has-append y ys zs),
    Chain-inserted y ys zs c.2 da.1 (ground arith) (ground arith),
  )

module _ (h : Links) (x b : Ptr) where
  pub Chain-joined :
      (a : Ptr) (ys zs : List Ptr)
      → Chain h a (ys ++ x ∷ zs) b
      → Distinct (a ∷ ys ++ x ∷ zs)
      → Distinct (b ∷ ys ++ x ∷ zs)
      → Chain (joined h (last a ys) (first zs b)) a (ys ++ zs) b
  Chain-joined a [] [] c da db = (ground arith, ground arith)
  Chain-joined a [] (z ∷ zs) c da db = (
    ground arith,
    ground arith,
    Chain-frame h _ z b zs (λ p i. ground arith) (λ p i. ground arith) c.2.2,
  )
  Chain-joined a (y ∷ ys) zs c da db = (
    ground (arith, ne_of_mem a (last y ys) (y ∷ ys ++ x ∷ zs) (last-mem_append y ys (x ∷ zs)) da.0),
    ground (arith, first-mem b zs, has-append y ys (x ∷ zs)),
    Chain-joined y ys zs c.2 da.1 (ground arith),
  )
