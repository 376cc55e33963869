-- ===== src/Links.antt =====
-- The intrusive circular lists of src/c/kernel/include/list.h: the links of every `list_head` as
-- two maps from addresses, and the header's inline functions as commands that read and write them.
-- A read or a write through NULL is a fault.
pub mod Chain
pub mod Family
pub mod Ring
use rpi_kernel.Base.{ℕ, ◌≡◌, Bool, false, true, Option, none, some, ◌==◌, if◌then◌else◌, update}

abbrev pub Ptr : Type 0
Ptr = ℕ

abbrev pub null : Ptr
null = 0

-- `next` and `prev` of the `list_head` at each address.
pub record Links : Type 0 where
  pub next : Ptr → Ptr
  pub prev : Ptr → Ptr

-- `none` is a dereference of NULL.
abbrev pub M : Type 0 → Type 0
M A = Links → Option (A × Links)

abbrev pub pure : {A : Type 0} → A → M A
pure a h = some (a, h)

module _ {A B : Type 0} where
  abbrev pub and_then : Option (A × Links) → (A → M B) → Option (B × Links)
  and_then none k = none
  and_then (some (a, h)) k = k a h

  infixl 5 ◌>>=◌ ◌>>◌
  abbrev pub ◌>>=◌ : M A → (A → M B) → M B
  m >>= k = λ h. and_then (m h) k

  abbrev pub ◌>>◌ : M A → M B → M B
  m >> n = m >>= λ _. n

-- p->next, p->prev and the writes of them
unfoldable pub get_next : Ptr → M Ptr
get_next p h = if p == null then none else some (h.next p, h)

unfoldable pub get_prev : Ptr → M Ptr
get_prev p h = if p == null then none else some (h.prev p, h)

unfoldable pub set_next : Ptr → Ptr → M (Unit {0})
set_next p q h = if p == null then none else some (tt, record h { next = update h.next p q })

unfoldable pub set_prev : Ptr → Ptr → M (Unit {0})
set_prev p q h = if p == null then none else some (tt, record h { prev = update h.prev p q })

-- At an address that is not NULL each of them succeeds.
module _ (p : Ptr) (h : Links) (valid : (p == null) ≡ false) where
  pub get_next-ok : get_next p h ≡ some (h.next p, h)
  unfolding get_next
  get_next-ok = rw valid

  pub get_prev-ok : get_prev p h ≡ some (h.prev p, h)
  unfolding get_prev
  get_prev-ok = rw valid

  pub set_next-ok : (q : Ptr) → set_next p q h ≡ some (tt, record h { next = update h.next p q })
  unfolding set_next
  set_next-ok q = rw valid

  pub set_prev-ok : (q : Ptr) → set_prev p q h ≡ some (tt, record h { prev = update h.prev p q })
  unfolding set_prev
  set_prev-ok q = rw valid

unfoldable pub init_list_head : Ptr → M (Unit {0})
init_list_head p = do set_next p p; set_prev p p

-- `__list_add`
unfoldable pub list_add_between : Ptr → (before after : Ptr) → M (Unit {0})
list_add_between new before after = do
  set_prev after new
  set_next new after
  set_prev new before
  set_next before new

unfoldable pub list_add : Ptr → Ptr → M (Unit {0})
unfolding list_add_between
list_add new head = do after ← get_next head; list_add_between new head after

unfoldable pub list_add_tail : Ptr → Ptr → M (Unit {0})
unfolding list_add_between
list_add_tail new head = do before ← get_prev head; list_add_between new before head

-- `__list_del`
unfoldable pub list_unlink : (before after : Ptr) → M (Unit {0})
list_unlink before after = do set_prev after before; set_next before after

unfoldable pub list_del : Ptr → M (Unit {0})
unfolding list_unlink
list_del entry = do
  before ← get_prev entry
  after ← get_next entry
  list_unlink before after
  set_next entry null
  set_prev entry null

unfoldable pub list_del_init : Ptr → M (Unit {0})
unfolding list_unlink init_list_head
list_del_init entry = do
  before ← get_prev entry
  after ← get_next entry
  list_unlink before after
  init_list_head entry

unfoldable pub list_move : (entry head : Ptr) → M (Unit {0})
unfolding list_unlink list_add
list_move entry head = do
  before ← get_prev entry
  after ← get_next entry
  list_unlink before after
  list_add entry head

unfoldable pub list_move_tail : (entry head : Ptr) → M (Unit {0})
unfolding list_unlink list_add_tail
list_move_tail entry head = do
  before ← get_prev entry
  after ← get_next entry
  list_unlink before after
  list_add_tail entry head

unfoldable pub list_empty : Ptr → M Bool
list_empty head = do first ← get_next head; pure (first == head)

unfoldable pub list_is_tail : (entry head : Ptr) → M Bool
list_is_tail entry head = do after ← get_next entry; pure (after == head)

-- `__list_splice`
unfoldable pub list_splice_between : (donor head : Ptr) → M (Unit {0})
list_splice_between donor head = do
  first ← get_next donor
  last ← get_prev donor
  at ← get_next head
  set_prev first head
  set_next head first
  set_next last at
  set_prev at last

unfoldable pub list_splice : (donor head : Ptr) → M (Unit {0})
unfolding list_empty list_splice_between
list_splice donor head = do
  empty ← list_empty donor
  if empty then pure tt else list_splice_between donor head

unfoldable pub list_splice_init : (donor head : Ptr) → M (Unit {0})
unfolding list_empty list_splice_between init_list_head
list_splice_init donor head = do
  empty ← list_empty donor
  if empty then pure tt else do list_splice_between donor head; init_list_head donor
