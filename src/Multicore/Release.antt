-- ===== src/Multicore/Release.antt =====
-- The release of sleeping cores: `core_enable` and `core_sleep` of src/c/multicore.c, under any interleaving of
-- the cores. A step is one access to `cpu_release_addr`.
use rpi_kernel.Base.{
  ℕ, ◌≡◌, ◌≢◌, refl, ◌⊎◌, inl, inr, arith, update, ◌==◌, Bool-cases, ap, subst, false,
}
use rpi_kernel.Links.{Ptr, null}
use rpi_kernel.Boot.{core_enable}

-- Where a core stands: before `core_sleep`, in its loop, or at the address that it branched to.
pub data Place : Type 0 where
  awake waiting : Place
  jumped : Ptr → Place

pub record Sleepers : Type 0 where
  pub slots : ℕ → Ptr
  pub place : ℕ → Place

abbrev pub put : ℕ → Place → Sleepers → Sleepers
put core p s = record s { place = update s.place core p }

abbrev pub enabled : ℕ → Ptr → Sleepers → Sleepers
enabled core addr s = record s { slots = core_enable core addr s.slots }

pub data Access (s : Sleepers) : Sleepers → Type 0 where
  enables : (core : ℕ) (addr : Ptr) → Access s (enabled core addr s)
  sleeps :
      (core : ℕ)
      → s.place core ≡ awake
      → Access s (put core waiting (record s { slots = update s.slots core null }))
  waits : (core : ℕ) → s.place core ≡ waiting → s.slots core ≡ null → Access s s
  branches :
      (core : ℕ)
      → s.place core ≡ waiting
      → s.slots core ≢ null
      → Access s (put core (jumped (s.slots core)) s)

-- A step that puts no address in for the core `c`.
abbrev pub Spares : (c : ℕ) {s t : Sleepers} → Access s t → Type 0
Spares c (enables core addr) = core ≢ c
Spares c (sleeps core at) = Unit
Spares c (waits core at none_yet) = Unit
Spares c (branches core at some_yet) = Unit

pub data Accesses (c : ℕ) (s : Sleepers) : Sleepers → Type 0 where
  rest : Accesses c s s
  later : {t u : Sleepers} → Accesses c s t → (x : Access t u) → Spares c x → Accesses c s u

-- Not yet asleep, or asleep with no address: the core has nowhere to branch to.
abbrev pub Forgets : (c : ℕ) (slot : Ptr) → Sleepers → Type 0
Forgets c slot t =
    ((t.place c ≡ awake) × (t.slots c ≡ slot)) ⊎ ((t.place c ≡ waiting) × (t.slots c ≡ null))

-- The address stays, and the core waits or has branched to it.
abbrev pub Keeps : (c : ℕ) (addr : Ptr) → Sleepers → Type 0
Keeps c addr t = (t.slots c ≡ addr) × ((t.place c ≡ waiting) ⊎ (t.place c ≡ jumped addr))

spared-Forgets :
    (c : ℕ) (slot : Ptr) (t u : Sleepers) (x : Access t u)
    → Spares c x
    → Forgets c slot t
    → Forgets c slot u
unfolding core_enable
spared-Forgets c slot t _ (enables core addr) other f =
    let d : (c == core) ≡ false = ground arith in rw d f
spared-Forgets c slot t _ (sleeps core at) other f = elim (Bool-cases (c == core)) [
  | inl e ↦ inr (rw e (refl, refl))
  | inr e ↦ rw e f
]
spared-Forgets c slot t _ (waits core at none_yet) other f = f
spared-Forgets c slot t _ (branches core at some_yet) other f = elim (Bool-cases (c == core)) [
  | inl e ↦ let same : c ≡ core = ground arith in absurd (ground arith)
  | inr e ↦ rw e f
]

spared-Keeps :
    (c : ℕ) (addr : Ptr) (t u : Sleepers) (x : Access t u)
    → addr ≢ null
    → Spares c x
    → Keeps c addr t
    → Keeps c addr u
unfolding core_enable
spared-Keeps c addr t _ (enables core a) pos other k =
    let d : (c == core) ≡ false = ground arith in rw d k
spared-Keeps c addr t _ (sleeps core at) pos other k = elim (Bool-cases (c == core)) [
  | inl e ↦ let same : c ≡ core = ground arith in absurd (ground arith)
  | inr e ↦ rw e k
]
spared-Keeps c addr t _ (waits core at none_yet) pos other k = k
spared-Keeps c addr t _ (branches core at some_yet) pos other (same, f) =
    elim (Bool-cases (c == core)) [
      | inl e ↦
          let at_core : c ≡ core = ground arith in
          let slot : t.slots core ≡ addr = subst (λ k. t.slots k ≡ addr) at_core same in
          (same, inr (rw e (ap jumped slot)))
      | inr e ↦ (same, rw e f)
    ]

-- While nobody calls `core_enable` for a core: one that has not come to `core_sleep` yet loses the address that
-- was put in for it before, since it clears its slot, and never branches, in whatever order the cores run. One
-- that waits in the loop keeps an address that was put in for it, goes on waiting until its next reading of
-- the slot, and can branch to no other address.
pub release_order :
    (c : ℕ) (addr : Ptr) (s t : Sleepers)
    → Accesses c s t
    → addr ≢ null
    → s.slots c ≡ addr
    → ((s.place c ≡ awake) → Forgets c addr t) × ((s.place c ≡ waiting) → Keeps c addr t)
release_order c addr s t rest pos has = (λ up. inl (up, has), λ asleep. (has, inl asleep))
release_order c addr s t (later {t = u} run x spares) pos has =
    let (forgets, keeps) = release_order c addr s u run pos has in
    (
      λ up. spared-Forgets c addr u t x spares (forgets up),
      λ asleep. spared-Keeps c addr u t x pos spares (keeps asleep),
    )
