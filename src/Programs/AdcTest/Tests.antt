-- ===== src/Programs/AdcTest/Tests.antt =====
-- ADC_test of hwtest/hwtest.c after two interrupts.
use at91_sam9x25_drivers.Prelude.{
  ℕ, ◌+◌, ◌*◌, ◌-◌, ◌/◌, ◌<◌, ◌≡◌, refl, true, some, List, [], ◌∷◌, length, get_or,
}
use at91_sam9x25_drivers.Kernel.{val}
use at91_sam9x25_drivers.Adc.Average.{average}
use at91_sam9x25_drivers.Adc.Device.{Device, boot, serve_all}
use at91_sam9x25_drivers.Adc.Device.Averages.{seen}
use at91_sam9x25_drivers.Adc.Device.Chip.{
  rounds, reading, chip, chip-IsSam9x5, at_rest, loads, numbers, answers,
}
use at91_sam9x25_drivers.Adc.Load.Settles.{loaded}
use at91_sam9x25_drivers.Programs.AdcTest.{adc_test, adc_demo, microvolts, nearest, lines}
use at91_sam9x25_drivers.Programs.AdcTest.Shows.{adc_test-shows, IsVoltage, channel_at}

-- Every input at 512, and then at its channel's number.
abbrev inputs : List (ℕ → ℕ)
inputs = (λ c. c) ∷ (λ _. 512) ∷ []

adc_test-shows_example :
    (d0 d : Device numbers chip) × (ls : List (ℕ × ℕ)) × (boot numbers chip
        (answers (val 0))
        at_rest
      ≡ some d0)
    × (serve_all numbers chip inputs d0 ≡ some d)
    × (adc_test true d.adc ≡ some (some ls))
    × (adc_demo true d.adc ≡ some (some ls))
    × (length ls ≡ 11)
    × ((i : ℕ)
        → i < 11
        → (shown : ℕ) × (get_or ls i (0, 0) ≡ (i, shown))
          × IsVoltage
              (average
                (channel_at i)
                (seen rounds (λ c. reading ((48 + 4 * c - 48) / 4) d0.converter) inputs))
              shown
          × (shown < 3000000))
adc_test-shows_example =
    adc_test-shows numbers chip chip-IsSam9x5 (answers (val 0)) at_rest (loaded numbers) inputs
      loads

-- `0.002930 V` for 1, `1.500000 V` for 512, and a tie that goes to the even number.
shown_example :
    lines 0 (1 ∷ 512 ∷ 8 ∷ 24 ∷ []) ≡ (0, 2930) ∷ (1, 1500000) ∷ (2, 23438) ∷ (3, 70312) ∷ []
unfolding lines microvolts nearest
shown_example = refl
