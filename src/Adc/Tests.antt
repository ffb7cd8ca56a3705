-- ===== src/Adc/Tests.antt =====
-- The theorems about at91adc/at91adc.c at a few answers of the hardware and the kernel.
use at91_sam9x25_drivers.Prelude.{
  ℕ, zero, suc, length, get_or, ◌-◌, ◌<◌, ◌+◌, ◌*◌, ◌≡◌, refl, true, false, some, List, [], ◌∷◌,
  arith,
}
use at91_sam9x25_drivers.Kernel.{val, err, ebusy}
use at91_sam9x25_drivers.Adc.Original.{Original, Interrupt, Gaps, read_samples, interrupts, cleared}
use at91_sam9x25_drivers.Adc.Original
use at91_sam9x25_drivers.Adc.Original.Window.{read-window}
use at91_sam9x25_drivers.Adc.Original.Window.Behind.{taken}
use at91_sam9x25_drivers.Adc.Original.Load
use at91_sam9x25_drivers.Adc.Original.Load.Leaves.{LeavesDevice, init-LeavesDevice}
use at91_sam9x25_drivers.Adc.Store.{store}
use at91_sam9x25_drivers.Adc.Device.Chip.{numbers, answers}
use at91_sam9x25_drivers.Adc.Load.{at91adc_init}
use at91_sam9x25_drivers.Adc.Load.Settles.{IsSettled, init-IsSettled}

-- Two interrupts, with readings of more than ten bits.
abbrev pub readings : List (ℕ → ℕ)
readings = (λ c. c * 100) ∷ (λ c. 1000 + c) ∷ []

init-IsSettled_example : IsSettled numbers (at91adc_init numbers (answers (err ebusy)))
init-IsSettled_example = init-IsSettled numbers (answers (err ebusy))

-- Ten interrupts, so two samples, and a read with five more before its first load.
abbrev ticks : ℕ → List Interrupt
ticks zero = []
ticks (suc n) = record { busy = n; chr = λ c. 10 * n + c } ∷ ticks n

abbrev during : Gaps
during = ticks 5 ∷ []

read-window_example :
    (s s' : Original) × (copies : List (ℕ × ℕ)) × (interrupts (ticks 10) cleared ≡ some s)
    × (Original.at91adc_read (λ _. false) 1 100 400 during s ≡ some ((val 400, copies), s'))
    × (length copies ≡ 200)
    × ((j : ℕ)
        → j < 200
        → get_or copies j (0, 0) ≡ (100 + 2 * j, get_or (taken 1 (ticks 10) []) (199 - j) 0))
read-window_example =
    read-window (λ _. false) 1 100 400 (ticks 10) during (λ _. refl) (omega arith) (omega arith)

samples_example : taken 1 (ticks 10) [] ≡ 1 ∷ 51 ∷ []
samples_example = refl

-- Every interrupt but the fifth only counts.
fifth_example :
    interrupts
      (ticks 6)
      (record { pbuf0 = 7 ∷ 7 ∷ []; pbuf1 = 8 ∷ 8 ∷ []; appidx = 1; timecount = 0 })
    ≡ some (record { pbuf0 = 7 ∷ 10 ∷ []; pbuf1 = 8 ∷ 11 ∷ []; appidx = 2; timecount = 1 })
unfolding interrupts Original.at91tc0_isr Original.take_sample Original.wait store
fifth_example = refl

-- A failure late in the loading of the driver that this one was made from.
abbrev late_failure : Original.Load.Answers
late_failure = record {
  alloc_chrdev_region = val 0;
  cdev_add = val 0;
  kmalloc0 = true;
  kmalloc1 = true;
  map_adc = true;
  map_tc0 = true;
  request_irq = err ebusy;
}

init-LeavesDevice_example : LeavesDevice numbers (Original.Load.at91adc_init numbers late_failure)
init-LeavesDevice_example = init-LeavesDevice numbers late_failure refl refl
