-- ===== src/Sleep.antt =====
-- Sleeping: src/c/kernel/sleep.c but for `proc_tick`. Each core has a queue of the processes that sleep,
-- whose `tick_delta` are meant as differences.
pub mod Tick
pub mod Late
use rpi_kernel.Base.{
  ℕ, ◌+◌, ◌-◌, ◌/◌, ◌^◌, Bool, true, false, Option, none, some, List, [], ◌∷◌, ◌==◌, if◌then◌else◌,
  ltb, leb, u64, pred64, update, update_key,
}
use rpi_kernel.Config.{ReturnState, ok, block, clock_divd}
use rpi_kernel.Links.{Ptr}
use rpi_kernel.State.{
  Process, State, Head, sleeping_on, head_key, Cmd, pure, and_then, ◌>>=◌, ◌>>◌, modify, gets,
  with_proc, del_sched,
}
use rpi_kernel.Sched.{current, ready}

unfoldable pub ms_to_ticks : ℕ → ℕ
ms_to_ticks ms = ms / (1000 / clock_divd)

abbrev pub tick_delta : State → Ptr → ℕ
tick_delta s p = (s.procs p).tick_delta

abbrev pub with_delta : Ptr → (ℕ → ℕ) → State → State
with_delta p f = with_proc p (λ q. record q { tick_delta = f q.tick_delta })

-- `a - b` on `uint64_t`
abbrev pub sub64 : ℕ → ℕ → ℕ
sub64 a b = u64 (a + (2 ^ 64 - b))

abbrev pub with_sleepers : ℕ → (List Ptr → List Ptr) → State → State
with_sleepers core f s = record s {
  lists = update_key s.lists (sleeping_on core) (f (s.lists (sleeping_on core)));
}

-- The first loop of `proc_sleep`, over the entries that are left: the entry at which it breaks, or
-- `none` where it comes round to the head.
unfoldable pub find_position : (core : ℕ) → List Ptr → Cmd (Option Ptr)
find_position core [] = pure none
find_position core (entry ∷ entries) =
    let rest = find_position core entries in
    do
      here ← gets (λ s. leb (tick_delta s (current core s)) (tick_delta s entry))
      if here then pure (some entry) else do
        modify (λ s. with_delta (current core s) (λ n. sub64 n (tick_delta s entry)) s)
        rest

-- `list_add(&p->sched_list, &entry->sched_list)` on the entries behind a head.
abbrev pub insert_after : (p entry : Ptr) → List Ptr → List Ptr
insert_after p entry [] = []
insert_after p entry (x ∷ xs) =
    let rest = insert_after p entry xs in if x == entry then x ∷ p ∷ xs else x ∷ rest

-- The entry behind `p`; `none` is the head.
abbrev pub entry_after : Ptr → List Ptr → Option Ptr
entry_after p [] = none
entry_after p (x ∷ xs) =
    let rest = entry_after p xs in
    if x == p then (elim xs [ [] ↦ none | y ∷ ys ↦ some y ]) else rest

abbrev pub place : (p : Ptr) → Option Ptr → List Ptr → List Ptr
place p none entries = p ∷ entries
place p (some entry) entries = insert_after p entry entries

abbrev pub entry_or : Ptr → Option Ptr → Ptr
entry_or p none = p
entry_or p (some entry) = entry

-- `list_for_each_entry_continue(current, …)` with its body, which breaks: the cursor of the loop is
-- `current`, the entry of the running list. `at_head` is what `list_entry` makes of the head.
unfoldable pub settle : (core : ℕ) → (at_head entry : Ptr) → (cursor : Option Ptr) → Cmd (Unit {0})
settle core at_head entry none = modify (λ s. record s { running = update s.running core at_head })
settle core at_head entry (some cursor) = do
  modify (λ s. record s { running = update s.running core cursor })
  modify (λ s. with_delta entry (λ n. sub64 n (tick_delta s (current core s))) s)

-- What `proc_sleep` does once the process has ticks to sleep, with `entries` those of the sleep queue.
-- `at_head` gives for each core the address that `list_entry` makes of the head of its queue.
unfoldable pub join_sleepers :
    (at_head : ℕ → Ptr) → (core : ℕ) → (self : Ptr) → List Ptr → Cmd (Unit {0})
unfolding find_position settle
join_sleepers at_head core self entries = do
  found ← find_position core entries
  modify (with_sleepers core (place self found))
  elim entries [
    | [] ↦ pure tt
    | first ∷ others ↦ do
      cursor ← gets (λ s. entry_after self (s.lists (sleeping_on core)))
      settle core (at_head core) (entry_or (at_head core) found) cursor
  ]

unfoldable pub proc_sleep : (at_head : ℕ → Ptr) → (core ms : ℕ) → Cmd ReturnState
unfolding ms_to_ticks join_sleepers
proc_sleep at_head core ms = do
  self ← gets (current core)
  modify (with_delta self (λ n. ms_to_ticks ms))
  now ← gets (λ s. tick_delta s self == 0)
  if now then pure ok else do
    entries ← gets (λ s. s.lists (sleeping_on core))
    join_sleepers at_head core self entries
    pure block

-- One round of the loop of `global_tick`; `true` is its `break`.
unfoldable pub tick_entry : ℕ → Ptr → Cmd Bool
tick_entry core p = do
  modify (with_delta p pred64)
  asleep ← gets (λ s. ltb 0 (tick_delta s p))
  if asleep then pure true else do
    modify (del_sched p)
    ready core p
    modify (with_proc p (λ q. record q { ret = 0 }))
    pure false

unfoldable pub tick_loop : ℕ → List Ptr → Cmd (Unit {0})
unfolding tick_entry
tick_loop core [] = pure tt
tick_loop core (p ∷ ps) =
    let rest = tick_loop core ps in do stop ← tick_entry core p; if stop then pure tt else rest

unfoldable pub global_tick : ℕ → Cmd (Unit {0})
unfolding tick_loop
global_tick core = do entries ← gets (λ s. s.lists (sleeping_on core)); tick_loop core entries
