-- ===== src/Gpio.antt =====
-- The general purpose pins: src/c/gpio.c and src/c/include/gpio.h. Beside the function selectors,
-- which are read back, and the levels, which the pins give, the registers are triggers: the model
-- keeps what is written to them, in order.
pub mod Function
use rpi_kernel.Base.{
  ℕ, ◌+◌, ◌-◌, ◌*◌, ◌/◌, ◌%◌, ◌^◌, Bool, List, [], ◌∷◌, ◌++◌, ◌==◌, if◌then◌else◌, leb, update,
  bit_and, bit_or,
}

-- `gpio_sel_t`
pub data Select : Type 0 where
  sel_input sel_output sel_alt0 sel_alt1 sel_alt2 sel_alt3 sel_alt4 sel_alt5 : Select

abbrev pub code : Select → ℕ
code sel_input = 0
code sel_output = 1
code sel_alt0 = 4
code sel_alt1 = 5
code sel_alt2 = 6
code sel_alt3 = 7
code sel_alt4 = 3
code sel_alt5 = 2

-- A write of a word to one of the registers that are triggers.
pub data Write : Type 0 where
  to_set : (index word : ℕ) → Write
  to_clr : (index word : ℕ) → Write
  to_pud : (word : ℕ) → Write
  to_pud_clk : (index word : ℕ) → Write

-- `gpio_t`
pub record Gpio : Type 0 where
  pub sel : ℕ → ℕ
  pub lev : ℕ → ℕ
  pub writes : List Write

abbrev minus_one : ℕ
minus_one = 2 ^ 32 - 1

unfoldable pub valid_pin : ℕ → Bool
valid_pin pin = leb pin 53

abbrev pub emit : List Write → Gpio → Gpio
emit ws g = record g { writes = g.writes ++ ws }

unfoldable pub gpio_fsel : (pin : ℕ) → Select → Gpio → ℕ × Gpio
unfolding valid_pin
gpio_fsel pin function g =
    let cleared = bit_and (g.sel (pin / 10)) (2 ^ 32 - 1 - 7 * 2 ^ (3 * (pin % 10))) in
    let word = bit_or cleared (code function * 2 ^ (3 * (pin % 10))) in
    if valid_pin pin then (0, record g { sel = update g.sel (pin / 10) word }) else (minus_one, g)

unfoldable pub gpio_read : (pin : ℕ) → Gpio → ℕ
unfolding valid_pin
gpio_read pin g =
    if valid_pin pin
    then (if bit_and (g.lev (pin / 32)) (2 ^ (pin % 32)) == 0 then 0 else 1)
    else minus_one

unfoldable pub gpio_write : (pin : ℕ) → Bool → Gpio → ℕ × Gpio
unfolding valid_pin
gpio_write pin val g =
    let index = pin / 32 in
    let word = 2 ^ (pin % 32) in
    if valid_pin pin
    then (0, emit ((if val then to_set index word else to_clr index word) ∷ []) g)
    else (minus_one, g)

unfoldable pub gpio_pull : (pin : ℕ) → (up off : Bool) → Gpio → ℕ × Gpio
unfolding valid_pin
gpio_pull pin up off g =
    let index = pin / 32 in
    let mode = if off then 0 else if up then 2 else 1 in
    if valid_pin pin
    then (0, emit (to_pud mode ∷ to_pud_clk index (2 ^ (pin % 32)) ∷ to_pud_clk index 0 ∷ []) g)
    else (minus_one, g)
