-- ===== src/Tests/Sleep.antt =====
-- The theorems on sleeping at concrete inputs.
use rpi_kernel.Base.{◌∷◌, [], List, ◌==◌, if◌then◌else◌}
use rpi_kernel.Links.{Ptr}
use rpi_kernel.State.{State, Head, sleeping_on}
use rpi_kernel.Tests.System.{system, process_at, queued}

-- Three processes sleep on core 1: two have one tick to go and the last none.
abbrev sleepers : Head → List Ptr
sleepers (sleeping_on core) = if core == 1 then 6000 ∷ 7000 ∷ 8000 ∷ [] else []
sleepers head = queued head

abbrev night : State
night = record system {
  lists = sleepers;
  procs = λ p. record (process_at p) { tick_delta = if p == 8000 then 0 else 1 };
}

-- A process with 100 ticks to go sleeps on core 0.
abbrev one_sleeper : Head → List Ptr
one_sleeper (sleeping_on core) = if core == 0 then 6000 ∷ [] else []
one_sleeper head = queued head

abbrev long_sleep : State
long_sleep = record system {
  lists = one_sleeper;
  procs = λ p. record (process_at p) { tick_delta = if p == 6000 then 100 else 0 };
}
