-- ===== src/Boot/Pins.antt =====
-- What `cinit_core` of src/c/init.c leaves in the pins, one function selector after the other.
use mathlib.Core.List.{append_assoc}
use rpi_kernel.Base.{
  ℕ, Bool, List, ◌+◌, ◌-◌, ◌*◌, ◌/◌, ◌%◌, ◌^◌, ◌≤◌, ◌<◌, ◌≡◌, refl, ◌∙◌, arith, ◌==◌, ◌||◌, ◌&&◌,
  if◌then◌else◌, true, ltb, leb, [], ◌∷◌, ◌++◌, Bool-cases, inl, inr,
}
use rpi_kernel.Base.Bits.{bit}
use rpi_kernel.Gpio.{Gpio, sel_output, to_set, valid_pin, gpio_fsel, gpio_write}
use rpi_kernel.Gpio.Function.{gpio_fsel_lem}
use rpi_kernel.Boot.{as_output, init_pins}

-- The bit `j` of the three that select the function of a pin.
abbrev pub selector : (pin j : ℕ) → Gpio → ℕ
selector pin j g = bit (3 * (pin % 10) + j) (g.sel (pin / 10))

same_field :
    (p pin j : ℕ)
    → j < 3
    → ((pin / 10 == p / 10)
        && (leb (3 * (p % 10)) (3 * (pin % 10) + j) && ltb (3 * (pin % 10) + j) (3 * (p % 10) + 3)))
      ≡ (pin == p)
same_field p pin j small = elim (Bool-cases (pin / 10 == p / 10)) [
  | inl row ↦ ground arith
  | inr other ↦ ground arith
]

selector-as_output :
    (p pin j : ℕ) (g : Gpio)
    → p ≤ 53
    → j < 3
    → selector pin j (as_output p g) ≡ (if pin == p then bit j 1 else selector pin j g)
selector-as_output p pin j g valid small =
    let i = 3 * (pin % 10) + j in
    let (result, levels, writes, bits) = gpio_fsel_lem p sel_output g (pin / 10) i (omega arith) in
    let fits : leb p 53 ≡ true = ground arith in
    bits
    ∙ rw (fits, same_field p pin j small)
        (elim (Bool-cases (pin == p)) [
          | inl same ↦ let at : i - 3 * (p % 10) ≡ j = ground arith in rw (same, at) refl
          | inr other ↦ rw other refl
        ])

-- The pins that `cinit_core` sets up.
abbrev pub is_used : (pin : ℕ) → Bool
is_used pin = (pin == 5) || ((pin == 6) || ((pin == 13) || ((pin == 19) || (pin == 21))))

pub selector-init_pins :
    (pin j : ℕ) (g : Gpio)
    → j < 3
    → selector pin j (init_pins g) ≡ (if is_used pin then bit j 1 else selector pin j g)
unfolding init_pins gpio_write valid_pin
selector-init_pins pin j g small =
    let g5 = as_output 5 g in
    let g6 = as_output 6 g5 in
    let g13 = as_output 13 g6 in
    let at : (p : ℕ) (h : Gpio)
        → p ≤ 53
        → selector pin j (as_output p h) ≡ (if pin == p then bit j 1 else selector pin j h) =
      λ p h fits. selector-as_output p pin j h fits small in
    at 21 (as_output 19 g13) (omega arith)
    ∙ ground (
      arith,
      at 19 g13 (omega arith),
      at 13 g6 (omega arith),
      at 6 g5 (omega arith),
      at 5 g (omega arith),
    )

append_four {ℓ} :
    {A : Type ℓ} (xs : List A) (a b c d : A)
    → (((xs ++ (a ∷ [])) ++ (b ∷ [])) ++ (c ∷ [])) ++ (d ∷ []) ≡ xs ++ a ∷ b ∷ c ∷ d ∷ []
append_four xs a b c d = rw (append_assoc, append_assoc, append_assoc) refl

pub writes-init_pins :
    (g : Gpio)
    → (init_pins g).writes
      ≡ g.writes ++ to_set 0 (2 ^ 5) ∷ to_set 0 (2 ^ 6) ∷ to_set 0 (2 ^ 13) ∷ to_set 0 (2 ^ 19) ∷ []
unfolding init_pins gpio_write gpio_fsel valid_pin
writes-init_pins g =
    append_four g.writes (to_set 0 (2 ^ 5)) (to_set 0 (2 ^ 6)) (to_set 0 (2 ^ 13))
      (to_set 0 (2 ^ 19))
