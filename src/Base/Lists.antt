-- ===== src/Base/Lists.antt =====
-- Lists of native numbers: length, membership, removal and distinctness.
use Prim.Native.Nat.{ℕ, suc, ◌+◌}
use mathlib.Core.Path.{◌≡◌, refl, ap}
use mathlib.Core.Bool.{Bool, true, false, ◌||◌}
use mathlib.Core.List.{List, [], ◌∷◌, ◌++◌}
use native.Mathlib.Omega.{arith}
use mathlib.Core.Logic.{◌≢◌, ◌⊎◌, inl, inr}
use rpi_kernel.Base.Tests.{◌==◌, if◌then◌else◌, Bool-cases}

abbrev pub length {ℓ} : {A : Type ℓ} → List A → ℕ
length [] = 0
length (x ∷ xs) = suc (length xs)

pub length-append {ℓ} : {A : Type ℓ} (xs ys : List A) → length (xs ++ ys) ≡ length xs + length ys
length-append [] ys = omega arith
length-append (x ∷ xs) ys = omega (arith, length-append xs ys)

abbrev pub has : ℕ → List ℕ → Bool
has a [] = false
has a (x ∷ xs) = (a == x) || has a xs

infix 40 ◌∈◌ ◌∉◌
abbrev pub ◌∈◌ : ℕ → List ℕ → Type 0
a ∈ xs = has a xs ≡ true

abbrev pub ◌∉◌ : ℕ → List ℕ → Type 0
a ∉ xs = has a xs ≡ false

abbrev pub Distinct : List ℕ → Type 0
Distinct [] = Unit {0}
Distinct (x ∷ xs) = (x ∉ xs) × Distinct xs

-- Every occurrence of a number taken out.
abbrev pub remove : ℕ → List ℕ → List ℕ
remove a [] = []
remove a (x ∷ xs) = let rest = remove a xs in if a == x then rest else x ∷ rest

pub has-append : (a : ℕ) (xs ys : List ℕ) → has a (xs ++ ys) ≡ (has a xs || has a ys)
has-append a [] ys = refl
has-append a (x ∷ xs) ys = ground (arith, has-append a xs ys)

pub has-remove :
    (a b : ℕ) (xs : List ℕ) → has a (remove b xs) ≡ (if a == b then false else has a xs)
has-remove a b [] = ground arith
has-remove a b (x ∷ xs) = ground (arith, has-remove a b xs)

pub remove_absent : (a : ℕ) (xs : List ℕ) → a ∉ xs → remove a xs ≡ xs
remove_absent a [] out = refl
remove_absent a (x ∷ xs) out = ground (arith, remove_absent a xs)

pub remove-append : (a : ℕ) (xs ys : List ℕ) → remove a (xs ++ ys) ≡ remove a xs ++ remove a ys
remove-append a [] ys = refl
remove-append a (x ∷ xs) ys = ground (arith, remove-append a xs ys)

pub Distinct-remove : (a : ℕ) (xs : List ℕ) → Distinct xs → Distinct (remove a xs)
Distinct-remove a [] d = tt
Distinct-remove a (x ∷ xs) d = ground (arith, Distinct-remove a xs d.1, has-remove x a xs)

pub length-remove :
    (a : ℕ) (xs : List ℕ) → Distinct xs → a ∈ xs → length (remove a xs) + 1 ≡ length xs
length-remove a [] d h = ground arith
length-remove a (x ∷ xs) d h = elim (Bool-cases (a == x)) [
  | inl hit ↦ ground (arith, remove_absent a xs)
  | inr miss ↦ ground (arith, length-remove a xs d.1)
]

pub length-remove_absent : (a : ℕ) (xs : List ℕ) → a ∉ xs → length (remove a xs) ≡ length xs
length-remove_absent a xs h = ap length (remove_absent a xs h)

-- A member splits the list around it.
pub split_at :
    (a : ℕ) (xs : List ℕ) → a ∈ xs → (ys : List ℕ) × (zs : List ℕ) × (xs ≡ ys ++ a ∷ zs) × (a ∉ ys)
split_at a [] h = ground arith
split_at a (x ∷ xs) h = elim (Bool-cases (a == x)) [
  | inl hit ↦ ([], xs, ground arith, refl)
  | inr miss ↦
      let (ys, zs, e, out) = split_at a xs (ground arith) in
      (x ∷ ys, zs, ap (λ l. x ∷ l) e, ground arith)
]

pub list_cases {ℓ} :
    {A : Type ℓ} (xs : List A) → (xs ≡ []) ⊎ ((x : A) × (rest : List A) × (xs ≡ x ∷ rest))
list_cases [] = inl refl
list_cases (x ∷ xs) = inr (x, xs, refl)

pub cons-ne-nil {ℓ} : {A : Type ℓ} (x : A) (xs : List A) → x ∷ xs ≢ []
cons-ne-nil x xs e = cc
