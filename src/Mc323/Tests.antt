-- ===== src/Mc323/Tests.antt =====
-- The theorem about the modem's lines for a run of commands.
use at91_sam9x25_drivers.Prelude.{◌≡◌, false, List, [], ◌∷◌, ◌++◌, ℕ}
use at91_sam9x25_drivers.Mc323.{rst, poweron, wakeup, ring, commands, at91mc323_init}
use at91_sam9x25_drivers.Kernel.{val}
use at91_sam9x25_drivers.Mc323.Pulses.{pulses, loaded-pulses}

abbrev cycle : List ℕ
cycle = 0 ∷ 3 ∷ 1 ∷ 0 ∷ 7 ∷ []

loaded-pulses_example :
    (pulses poweron false 0 ((at91mc323_init (val 0)).1 ++ commands cycle) ≡ 200 ∷ 200 ∷ 200 ∷ [])
    × (pulses rst false 0 ((at91mc323_init (val 0)).1 ++ commands cycle) ≡ 20 ∷ [])
    × (pulses wakeup false 0 ((at91mc323_init (val 0)).1 ++ commands cycle) ≡ [])
    × (pulses ring false 0 ((at91mc323_init (val 0)).1 ++ commands cycle) ≡ [])
loaded-pulses_example = loaded-pulses cycle
