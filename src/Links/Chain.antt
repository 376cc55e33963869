-- ===== src/Links/Chain.antt =====
-- What the links say about a sequence of nodes: each points to the next and back.
use rpi_kernel.Base.{◌≡◌, ◌≢◌, false, List, [], ◌∷◌, ◌++◌, arith, ◌==◌, ◌∈◌, ◌∉◌, has-append}
use rpi_kernel.Links.{Ptr, null, Links}

-- From `a` the links lead through `xs` to `b`, forwards and backwards.
abbrev pub Chain : Links → Ptr → List Ptr → Ptr → Type 0
Chain h a [] b = (h.next a ≡ b) × (h.prev b ≡ a)
Chain h a (x ∷ xs) b = (h.next a ≡ x) × (h.prev x ≡ a) × Chain h x xs b

-- The last node before `b`, and the first after `a`.
abbrev pub last : Ptr → List Ptr → Ptr
last a [] = a
last a (x ∷ xs) = last x xs

abbrev pub first : List Ptr → Ptr → Ptr
first [] b = b
first (x ∷ xs) b = x

pub Chain-first : (h : Links) (a b : Ptr) (xs : List Ptr) → Chain h a xs b → h.next a ≡ first xs b
Chain-first h a b [] c = c.0
Chain-first h a b (x ∷ xs) c = c.0

pub Chain-last : (h : Links) (a b : Ptr) (xs : List Ptr) → Chain h a xs b → h.prev b ≡ last a xs
Chain-last h a b [] c = c.1
Chain-last h a b (x ∷ xs) c = Chain-last h x b xs c.2

-- A chain survives a change that spares the `next` of its start and inner nodes and the `prev` of
-- its inner nodes and end.
pub Chain-frame :
    (h g : Links) (a b : Ptr) (xs : List Ptr)
    → ((p : Ptr) → p ∈ a ∷ xs → g.next p ≡ h.next p)
    → ((p : Ptr) → p ∈ b ∷ xs → g.prev p ≡ h.prev p)
    → Chain h a xs b
    → Chain g a xs b
Chain-frame h g a b [] n p c = (ground (arith, n a), ground (arith, p b))
Chain-frame h g a b (x ∷ xs) n p c = (
  ground (arith, n a),
  ground (arith, p x),
  Chain-frame h g x b xs (λ q i. n q (ground arith)) (λ q i. p q (ground arith)) c.2,
)

pub Chain-split :
    (h : Links) (a b x : Ptr) (ys zs : List Ptr)
    → Chain h a (ys ++ x ∷ zs) b
    → Chain h a ys x × Chain h x zs b
Chain-split h a b x [] zs c = ((c.0, c.1), c.2)
Chain-split h a b x (y ∷ ys) zs c = let (l, r) = Chain-split h y b x ys zs c.2 in ((c.0, c.1, l), r)

pub Chain-join :
    (h : Links) (a b x : Ptr) (ys zs : List Ptr)
    → Chain h a ys x
    → Chain h x zs b
    → Chain h a (ys ++ x ∷ zs) b
Chain-join h a b x [] zs c d = (c.0, c.1, d)
Chain-join h a b x (y ∷ ys) zs c d = (c.0, c.1, Chain-join h y b x ys zs c.2 d)

-- Two chains with one last link between them rewritten.
pub Chain-append :
    (h : Links) (a b : Ptr) (ys zs : List Ptr) (y z : Ptr)
    → Chain h a ys y
    → Chain h z zs b
    → h.next (last a ys) ≡ z
    → h.prev z ≡ last a ys
    → Chain h a (ys ++ z ∷ zs) b
Chain-append h a b [] zs y z c d n p = (n, p, d)
Chain-append h a b (x ∷ ys) zs y z c d n p = (c.0, c.1, Chain-append h x b ys zs y z c.2 d n p)

-- No node of the list is NULL.
pub last-ne : (a : Ptr) (xs : List Ptr) → a ≢ null → null ∉ xs → last a xs ≢ null
last-ne a [] n o = n
last-ne a (x ∷ xs) n o = last-ne x xs (ground arith) (ground arith)

pub last-mem : (a : Ptr) (xs : List Ptr) → last a xs ∈ a ∷ xs
last-mem a [] = ground arith
last-mem a (x ∷ xs) = ground (arith, last-mem x xs)

pub first-mem : (b : Ptr) (xs : List Ptr) → first xs b ∈ b ∷ xs
first-mem b [] = ground arith
first-mem b (x ∷ xs) = ground arith

pub last-mem_append : (a : Ptr) (ys zs : List Ptr) → last a ys ∈ a ∷ ys ++ zs
last-mem_append a ys zs = ground (arith, last-mem a ys, has-append (last a ys) (a ∷ ys) zs)

pub first-mem_append : (b : Ptr) (ys zs : List Ptr) → first zs b ∈ b ∷ ys ++ zs
first-mem_append b ys zs = ground (arith, first-mem b zs, has-append (first zs b) ys zs)

pub ne_of_mem : (a p : Ptr) (xs : List Ptr) → p ∈ xs → a ∉ xs → (a == p) ≡ false
ne_of_mem a p xs i o = ground arith
