-- ===== src/Adc/Racing/Tests.antt =====
-- A read of at91adc/at91adc.c with interrupts, after loading.
use at91_sam9x25_drivers.Prelude.{
  map, ℕ, ◌+◌, ◌*◌, ◌≡◌, false, some, List, [], ◌∷◌, if◌then◌else◌, ◌==◌, arith,
}
use at91_sam9x25_drivers.Kernel.{val}
use at91_sam9x25_drivers.Adc.{Adc, channels, cleared, after}
use at91_sam9x25_drivers.Adc.Average.{average}
use at91_sam9x25_drivers.Adc.Racing.Quiet.{quiet, quiet-averages}
use at91_sam9x25_drivers.Adc.Racing.{During, at91adc_read}
use at91_sam9x25_drivers.Adc.Racing.Bounded.{Holds, AllHold, IsBounded, cleared-IsBounded}
use at91_sam9x25_drivers.Adc.Racing.Between.{InRange, read-InRange}

-- An interrupt before each load of channel 3.
abbrev at_channel_3 : During
at_channel_3 j c = if c == 3 then (λ d. 100 + d) ∷ [] else []

-- Any ten-bit sample is at most 1023.
ten_bits : (cs : List ℕ) (chr : ℕ → ℕ) → Holds (λ _. 0) (λ _. 1023) cs chr
ten_bits [] chr = tt
ten_bits (c ∷ cs) chr = (omega arith, omega arith, ten_bits cs chr)

all_ten_bits : (chrs : List (ℕ → ℕ)) → AllHold (λ _. 0) (λ _. 1023) chrs
all_ten_bits [] = tt
all_ten_bits (chr ∷ chrs) = (ten_bits channels chr, all_ten_bits chrs)

read-InRange_example :
    (values : List ℕ) × (s' : Adc) × (at91adc_read at_channel_3 (λ _. false) 22 cleared
      ≡ some ((val 0, values), s'))
    × InRange (λ _. 0) (λ _. 1023) channels values
    × IsBounded (λ _. 0) (λ _. 1023) s'
read-InRange_example =
    read-InRange (λ _. 0) (λ _. 1023) at_channel_3 (λ _. false) 22 cleared (λ c. omega arith)
      (λ j c. all_ten_bits (at_channel_3 j c)) (cleared-IsBounded (λ _. 1023))

-- Two interrupts before the read.
abbrev before : List (ℕ → ℕ)
before = (λ c. c * 16384) ∷ (λ c. 16000 + c) ∷ []

quiet-averages_example :
    (s : Adc) × (after before ≡ some s)
    × (at91adc_read quiet (λ _. false) 22 s
        ≡ some ((val 0, map (λ c. average c before) channels), s))
quiet-averages_example = quiet-averages (λ _. false) 22 before
