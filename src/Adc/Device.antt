-- ===== src/Adc/Device.antt =====
-- The driver at91adc/at91adc.c on a converter: loading sets it up, and each interrupt starts a
-- conversion, waits for ten rounds, and reads the results.
mod SetUp
pub mod Averages
pub mod Chip
mod Tests
use at91_sam9x25_drivers.Prelude.{
  ◌>>=◌, ℕ, zero, suc, ◌≡◌, Option, none, some, List, [], ◌∷◌, if◌then◌else◌,
}
use at91_sam9x25_drivers.Kernel.{Ret, is_nonzero}
use at91_sam9x25_drivers.Adc.{Adc, at91tc0_isr, cleared}
use at91_sam9x25_drivers.Adc.Registers.{Registers, iowrite32}
use at91_sam9x25_drivers.Adc.Converter.{Converter, replay}
use at91_sam9x25_drivers.Adc.Load.{Held, Answers, at91adc_init}

module _ (r : Registers) (v : Converter) where
  open r use {adc_cr, adc_start, adc_chr}
  open v use {State, sense, do_access, cpu_relax, idle, ioread32}

  pub record Device : Type 0 where
    pub adc : Adc
    pub converter : State

  -- `for(i=0;i<10;i++) cpu_relax();` from `i` rounds before its end.
  abbrev pub relax : (i : ℕ) → State → State
  relax zero s = s
  relax (suc i) s = cpu_relax (relax i s)

  -- `at91tc0_isr` with its accesses, where the inputs are `inputs`, and the time up to the next one.
  -- Its read of the timer's status is not used.
  unfoldable pub serve : (inputs : ℕ → ℕ) → Device → Option Device
  serve inputs d =
      let started = do_access (iowrite32 adc_start adc_cr) (sense inputs d.converter) in
      let waited = relax 10 started in
      do
        adc ← at91tc0_isr (λ c. ioread32 (adc_chr c) waited) d.adc
        some (record { adc = adc; converter = idle waited })

  -- Interrupts one after another, the last first.
  unfoldable pub serve_all : List (ℕ → ℕ) → Device → Option Device
  serve_all [] d = some d
  serve_all (inputs ∷ before) d = do d' ← serve_all before d; serve inputs d'

  -- The device after loading has returned 0, `none` where it has not.
  abbrev pub ready : State → Ret × Held → Option Device
  ready s (ret, h) =
      if is_nonzero ret
      then none
      else some (record { adc = cleared; converter = replay r v h.adc s })

  unfoldable pub boot : Answers → State → Option Device
  boot k s = at91adc_init r k >>= ready s
