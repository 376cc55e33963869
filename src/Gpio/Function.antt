-- ===== src/Gpio/Function.antt =====
-- What `gpio_fsel` of src/c/gpio.c does to the function selectors, bit by bit.
use native.Mathlib.Nat.{pow-suc}
use rpi_kernel.Base.{
  ℕ, zero, suc, ◌+◌, ◌-◌, ◌*◌, ◌/◌, ◌%◌, ◌^◌, ◌≤◌, ◌<◌, ◌≡◌, refl, ◌∙◌, arith, ◌==◌, if◌then◌else◌,
  ltb, leb, ◌&&◌, bit_and, bit_or, Bool-cases, inl, inr,
}
use rpi_kernel.Base.Bits.{bit, bit-le, bit-zero, bit-bit_and, bit-bit_or, bit-complement, pow-lt}
use rpi_kernel.Gpio.{
  Gpio, Select, sel_input, sel_output, sel_alt0, sel_alt1, sel_alt2, sel_alt3, sel_alt4, sel_alt5,
  code, valid_pin, gpio_fsel,
}

-- The bits of a number shifted to the left.
bit-shift : (k i c : ℕ) → bit i (c * 2 ^ k) ≡ (if ltb i k then 0 else bit (i - k) c)
unfolding bit
bit-shift zero i c = let one : c * 2 ^ 0 ≡ c = omega arith in rw one (ground arith)
bit-shift (suc k) zero c = rw pow-suc (grind arith)
bit-shift (suc k) (suc i) c =
    let half : c * 2 ^ suc k / 2 ≡ c * 2 ^ k = rw pow-suc (grind arith) in
    rw half (bit-shift k i c ∙ ground arith)

bit-seven : (i : ℕ) → bit i 7 ≡ (if ltb i 3 then 1 else 0)
unfolding bit
bit-seven zero = refl
bit-seven (suc zero) = refl
bit-seven (suc (suc zero)) = refl
bit-seven (suc (suc (suc i))) = bit-zero i ∙ ground arith

bit-code : (i : ℕ) (function : Select) → 3 ≤ i → bit i (code function) ≡ 0
unfolding bit
bit-code zero function h = absurd (omega arith)
bit-code (suc zero) function h = absurd (omega arith)
bit-code (suc (suc zero)) function h = absurd (omega arith)
bit-code (suc (suc (suc i))) sel_input h = bit-zero i
bit-code (suc (suc (suc i))) sel_output h = bit-zero i
bit-code (suc (suc (suc i))) sel_alt0 h = bit-zero i
bit-code (suc (suc (suc i))) sel_alt1 h = bit-zero i
bit-code (suc (suc (suc i))) sel_alt2 h = bit-zero i
bit-code (suc (suc (suc i))) sel_alt3 h = bit-zero i
bit-code (suc (suc (suc i))) sel_alt4 h = bit-zero i
bit-code (suc (suc (suc i))) sel_alt5 h = bit-zero i

-- The field of three bits at `k` replaced, in a word of 32 bits.
bit-field :
    (k i word : ℕ) (function : Select)
    → k < 28
    → i < 32
    → bit i (bit_or (bit_and word (2 ^ 32 - 1 - 7 * 2 ^ k)) (code function * 2 ^ k))
      ≡ (if leb k i && ltb i (k + 3) then bit (i - k) (code function) else bit i word)
bit-field k i word function small small' =
    let fits : 7 * 2 ^ k < 2 ^ 32 = omega (arith, pow-lt 28 k small) in
    bit-bit_or i _ (code function * 2 ^ k)
    ∙ ground (
      arith,
      bit-bit_and i word (2 ^ 32 - 1 - 7 * 2 ^ k),
      bit-complement 32 i (7 * 2 ^ k) small' fits,
      bit-shift k i 7,
      bit-shift k i (code function),
      bit-seven (i - k),
      bit-code (i - k) function,
      bit-le i word,
      bit-le (i - k) (code function),
    )

-- `gpio_fsel` of a pin up to 53 returns 0 and puts the code of the function into the pin's three
-- bits. The other bits of the function selectors, so the functions of all other pins, stay. For any
-- other pin it returns -1 and changes nothing.
pub gpio_fsel_lem :
    (pin : ℕ) (function : Select) (g : Gpio) (index i : ℕ)
    → i < 32
    → let k = 3 * (pin % 10) in
      let (result, after) = gpio_fsel pin function g in
      (result ≡ (if leb pin 53 then 0 else 2 ^ 32 - 1))
      × (after.lev ≡ g.lev)
      × (after.writes ≡ g.writes)
      × (bit i (after.sel index) ≡ (
          if leb pin 53 && ((index == pin / 10) && (leb k i && ltb i (k + 3)))
          then bit (i - k) (code function)
          else bit i (g.sel index)))
unfolding gpio_fsel valid_pin
gpio_fsel_lem pin function g index i small = elim (Bool-cases (leb pin 53)) [
  | inl valid ↦ elim (Bool-cases (index == pin / 10)) [
    | inl here ↦
        let at : index ≡ pin / 10 = ground arith in
        rw (valid, here, at)
          (
            refl,
            refl,
            refl,
            bit-field (3 * (pin % 10)) i (g.sel (pin / 10)) function (omega arith) small,
          )
    | inr other ↦ rw (valid, other) (refl, refl, refl, refl)
  ]
  | inr invalid ↦ rw invalid (refl, refl, refl, refl)
]
