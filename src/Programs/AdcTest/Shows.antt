-- ===== src/Programs/AdcTest/Shows.antt =====
-- What ADC_test of hwtest/hwtest.c shows of the converter's inputs.
use at91_sam9x25_drivers.Prelude.{
  ℕ, zero, suc, ◌+◌, ◌*◌, ◌<◌, ◌≤◌, ◌≡◌, refl, ap, ◌∙◌, true, false, some, List, [], ◌∷◌, length,
  get_or, get_or-map, map, leb, ◌==◌, ==_iff, if◌then◌else◌, arith,
}
use at91_sam9x25_drivers.Prelude.Bits.{all_below, all_below-true}
use at91_sam9x25_drivers.Kernel.{val}
use at91_sam9x25_drivers.Adc.{channels}
use at91_sam9x25_drivers.Adc.Average.{average, average_bound}
use at91_sam9x25_drivers.Adc.Registers.{Registers}
use at91_sam9x25_drivers.Adc.Converter.{Converter, IsSam9x5}
use at91_sam9x25_drivers.Adc.Load.{Held, Answers, at91adc_init}
use at91_sam9x25_drivers.Adc.Device.{Device, boot, serve_all}
use at91_sam9x25_drivers.Adc.Device.Averages.{seen, device-averages}
use at91_sam9x25_drivers.Programs.AdcTest.{microvolts, nearest, lines, adc_test, adc_demo}

-- The channel of the converter whose value is at place `i`: the fifth is left out.
abbrev pub channel_at : ℕ → ℕ
channel_at i = if leb i 4 then i else i + 1

channels-channel_at : (i : ℕ) → i < 11 → get_or channels i 0 ≡ channel_at i
unfolding all_below
channels-channel_at i lt =
    (==_iff _ _).0 (all_below-true 11 (λ i. get_or channels i 0 == channel_at i) i every lt)
  where
    every : all_below 11 (λ i. get_or channels i 0 == channel_at i) ≡ true
    every = refl

length-lines : (i : ℕ) (vs : List ℕ) → length (lines i vs) ≡ length vs
unfolding lines
length-lines i [] = refl
length-lines i (v ∷ vs) = ap suc (length-lines (i + 1) vs)

get_or-lines :
    (i j : ℕ) (vs : List ℕ)
    → j < length vs
    → get_or (lines i vs) j (0, 0) ≡ (i + j, microvolts (get_or vs j 0))
unfolding lines
get_or-lines i j [] lt = absurd (omega arith)
get_or-lines i zero (v ∷ vs) lt = ap (λ n. (n, microvolts v)) (omega arith)
get_or-lines i (suc j) (v ∷ vs) lt =
    get_or-lines (i + 1) j vs (omega arith)
    ∙ ap (λ n. (n, microvolts (get_or vs j 0))) (omega arith)

-- Within half a microvolt of v / 1024 * 3 volts.
abbrev pub IsVoltage : (v shown : ℕ) → Type 0
IsVoltage v shown = (2048 * shown ≤ 6000000 * v + 1024) × (6000000 * v ≤ 2048 * shown + 1024)

microvolts-IsVoltage : (v : ℕ) → IsVoltage v (microvolts v)
unfolding microvolts nearest
microvolts-IsVoltage v = ground arith

below_3 : (v : ℕ) → v ≤ 1023 → microvolts v < 3000000
below_3 v le = omega (arith, (microvolts-IsVoltage v).0)

module _ (r : Registers) (v : Converter) (h : IsSam9x5 r v) where
  -- On a converter that does what its data sheet says, where conversions are done before the next
  -- interrupt, and where loading returns 0: after any interrupts the test, and the demo too, shows
  -- eleven lines, numbered from 0, and line `i` shows the average of what the last 16384 interrupts
  -- have sampled of channel `i`, from line 5 on of channel `i + 1`, as a part of 3 volts in 1024ths, to
  -- within half a microvolt, and less than 3 volts. An interrupt samples the channel's input, or, where
  -- its conversion takes longer than the ten rounds that the interrupt waits, the one before.
  pub adc_test-shows :
      (k : Answers) (s : v.State) (held : Held) (ins : List (ℕ → ℕ))
      → at91adc_init r k ≡ some (val 0, held)
      → (d0 d : Device r v) × (ls : List (ℕ × ℕ)) × (boot r v k s ≡ some d0)
        × (serve_all r v ins d0 ≡ some d)
        × (adc_test true d.adc ≡ some (some ls))
        × (adc_demo true d.adc ≡ some (some ls))
        × (length ls ≡ 11)
        × ((i : ℕ)
            → i < 11
            → (shown : ℕ) × (get_or ls i (0, 0) ≡ (i, shown))
              × IsVoltage
                  (average
                    (channel_at i)
                    (seen v.takes (λ c. v.ioread32 (r.adc_chr c) d0.converter) ins))
                  shown
              × (shown < 3000000))
  unfolding adc_test adc_demo
  adc_test-shows k s held ins e =
      let (d0, d, booted, served, result) = device-averages r v h k s held (λ _. false) 22 ins e in
      let sampled = seen v.takes (λ c. v.ioread32 (r.adc_chr c) d0.converter) ins in
      let vs = map (λ c. average c sampled) channels in
      (
        d0,
        d,
        lines 0 vs,
        booted,
        served,
        rw result refl,
        rw result refl,
        length-lines 0 vs,
        λ i lt.
            let a = average (channel_at i) sampled in
            (
              microvolts a,
              get_or-lines 0 i vs lt
                  ∙ ap (λ x. (0 + i, microvolts x))
                      (get_or-map (λ c. average c sampled) channels i 0 0 lt
                        ∙ ap (λ c. average c sampled) (channels-channel_at i lt))
                  ∙ ap (λ n. (n, microvolts a)) (omega arith),
              microvolts-IsVoltage a,
              below_3 a (average_bound (channel_at i) sampled),
            ),
      )
