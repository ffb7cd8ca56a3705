-- ===== src/Mc323.antt =====
-- The modem driver cdma-mc323/at91mc323.c: its four lines, and the pulses on them.
pub mod Pulses
mod Tests
use at91_sam9x25_drivers.Prelude.{
  ℕ, zero, suc, Option, Bool, true, false, List, [], ◌∷◌, ◌++◌, if◌then◌else◌,
}
use at91_sam9x25_drivers.Kernel.{Ret, val, is_nonzero}
use at91_sam9x25_drivers.Kernel.Misc.{misc_deregister}

-- `MC323_RST`, `MC323_POWERON`, `MC323_WAKEUP` and `MC323_RING`
pub data Line : Type 0 where
  rst poweron wakeup ring : Line

-- `at91_set_gpio_output` with 0, which is HIGH since the board inverts the lines;
-- `at91_set_gpio_value` of HIGH or of LOW, which is 1; `mdelay` in milliseconds.
pub data Step : Type 0 where
  output : Line → Step
  set_high : Line → Step
  set_low : Line → Step
  mdelay : ℕ → Step

abbrev pub at91mc323_ctl_gpio_init : List Step
at91mc323_ctl_gpio_init = output rst ∷ output poweron ∷ output wakeup ∷ output ring ∷ []

abbrev pub at91mc323_reset : List Step
at91mc323_reset = set_high rst ∷ set_low rst ∷ mdelay 20 ∷ set_high rst ∷ []

abbrev pub at91mc323_poweron : List Step
at91mc323_poweron = set_high poweron ∷ set_low poweron ∷ mdelay 200 ∷ set_high poweron ∷ []

abbrev pub at91mc323_poweroff : List Step
at91mc323_poweroff = []

-- `at91mc323_ioctl`: the commands of cdma-mc323/at91mc323.h are 0, 1 and 3, and the result is 0.
unfoldable pub at91mc323_ioctl : (cmd : ℕ) → Ret × List Step
at91mc323_ioctl zero = (val 0, at91mc323_poweron)
at91mc323_ioctl (suc zero) = (val 0, at91mc323_poweroff)
at91mc323_ioctl (suc (suc (suc zero))) = (val 0, at91mc323_reset)
at91mc323_ioctl _ = (val 0, [])

-- `at91mc323_init`, from the result of `misc_register`
unfoldable pub at91mc323_init : Ret → Ret × List Step
at91mc323_init ret =
    if is_nonzero ret then (ret, []) else (val 0, at91mc323_ctl_gpio_init ++ at91mc323_poweron)

-- `at91mc323_exit`: no line is touched.
unfoldable at91mc323_exit : (registered : Bool) → Option Bool
at91mc323_exit registered = misc_deregister registered

-- All that is done by commands one after another.
unfoldable pub commands : List ℕ → List Step
commands [] = []
commands (c ∷ cs) = (at91mc323_ioctl c).1 ++ commands cs
