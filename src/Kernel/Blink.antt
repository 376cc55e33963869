-- ===== src/Kernel/Blink.antt =====
-- `blink_proc` of src/c/kernel/kinit.c: a process that lets the pin of the core that it runs on blink.
use rpi_kernel.Base.{
  ℕ, zero, suc, ◌^◌, ◌/◌, ◌%◌, ◌<◌, ◌≡◌, ◌∙◌, ap, sym, Bool, true, false, List, [], ◌∷◌, ◌++◌,
  arith, ◌==◌, if◌then◌else◌, leb,
}
use mathlib.Core.List.{append_assoc, append-nil}
use rpi_kernel.Config.{num_cores}
use rpi_kernel.Gpio.{Gpio, Write, to_set, to_clr, valid_pin, gpio_write}

-- `core_gpio`; behind its end the program reads what `beyond` gives.
abbrev pub core_gpio : (beyond : ℕ → ℕ) → (core : ℕ) → ℕ
core_gpio beyond core =
    if core == 0
    then 5
    else if core == 1
    then 6
    else if core == 2
    then 13
    else if core == 3
    then 19
    else beyond core

abbrev pin_written : (pin : ℕ) → Bool → Gpio → Gpio
pin_written pin val g = let (result, after) = gpio_write pin val g in after

-- `rounds` rounds of the endless loop, from round `i` on; `core_at i` is the core that runs it. The delays
-- change nothing.
unfoldable pub blink_rounds : (beyond core_at : ℕ → ℕ) → (rounds i : ℕ) → Gpio → Gpio
blink_rounds beyond core_at zero i g = g
blink_rounds beyond core_at (suc rounds) i g =
    let pin = core_gpio beyond (core_at i) in
    blink_rounds beyond core_at rounds (suc i) (pin_written pin false (pin_written pin true g))

abbrev on_off : (pin : ℕ) → List Write
on_off pin = to_set (pin / 32) (2 ^ (pin % 32)) ∷ to_clr (pin / 32) (2 ^ (pin % 32)) ∷ []

-- The pins of the rounds, each set and cleared again before the next.
abbrev blinks : (core_at : ℕ → ℕ) → (rounds i : ℕ) → List Write
blinks core_at zero i = []
blinks core_at (suc rounds) i =
    on_off (core_gpio (λ c. 0) (core_at i)) ++ blinks core_at rounds (suc i)

-- Each of the four pins is a pin of the board.
pin_of_core :
    (beyond : ℕ → ℕ) (core : ℕ)
    → core < num_cores
    → (core_gpio beyond core ≡ core_gpio (λ c. 0) core) × (leb (core_gpio (λ c. 0) core) 53 ≡ true)
pin_of_core beyond core small = (ground arith, ground arith)

one_round :
    (pin : ℕ) (g : Gpio)
    → leb pin 53 ≡ true
    → pin_written pin false (pin_written pin true g) ≡ record g { writes = g.writes ++ on_off pin }
unfolding gpio_write valid_pin
one_round pin g valid =
    rw (pin_written, valid) (ap (λ w. record g { writes = w }) (append_assoc g.writes _ _))

-- A process that blinks sets and clears the pins of its cores, and writes nothing else.
blink_rounds_lem :
    (beyond core_at : ℕ → ℕ) (rounds i : ℕ) (g : Gpio)
    → ((j : ℕ) → core_at j < num_cores)
    → blink_rounds beyond core_at rounds i g
      ≡ record g { writes = g.writes ++ blinks core_at rounds i }
unfolding blink_rounds
blink_rounds_lem beyond core_at zero i g small =
    ap (λ w. record g { writes = w }) (sym (append-nil g.writes))
blink_rounds_lem beyond core_at (suc rounds) i g small =
    let (same, valid) = pin_of_core beyond (core_at i) (small i) in
    let pin = core_gpio (λ c. 0) (core_at i) in
    let g' : Gpio = record g { writes = g.writes ++ on_off pin } in
    ap (blink_rounds beyond core_at rounds (suc i))
      (ap (λ p. pin_written p false (pin_written p true g)) same ∙ one_round pin g valid)
    ∙ (blink_rounds_lem beyond core_at rounds (suc i) g' small
        ∙ ap (λ w. record g { writes = w }) (append_assoc g.writes (on_off pin) _))
