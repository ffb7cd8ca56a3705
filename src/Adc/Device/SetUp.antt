-- ===== src/Adc/Device/SetUp.antt =====
-- The converter as at91adc_init of at91adc/at91adc.c leaves it.
use at91_sam9x25_drivers.Prelude.{
  ℕ, ◌<◌, ◌≡◌, refl, ap, ◌∙◌, Bool, true, false, List, [], ◌∷◌, map, reverse, ◌==◌, both_true, ◌||◌,
  ◌&&◌, ltb, ltb→lt, Bool-cases, ==_iff, inl, inr, arith,
}
use mathlib.Core.Path.{fun_ext}
use at91_sam9x25_drivers.Adc.{channels}
use at91_sam9x25_drivers.Adc.Registers.{Registers, mux, or_all, has_bit}
use at91_sam9x25_drivers.Adc.Converter.{Converter, IsSam9x5, pin_of, replay}
use at91_sam9x25_drivers.Adc.Load.{adc_setup, cher}

-- Whether a number is in a list.
abbrev has : ℕ → List ℕ → Bool
has n [] = false
has n (m ∷ ms) = m == n || has n ms

module _ (r : Registers) (v : Converter) where
  open v use {State, do_access, sense, enabled, routed}

  -- The channels of a list are converted.
  abbrev pub AreOn : State → List ℕ → Type 0
  AreOn s [] = Unit
  AreOn s (c ∷ cs) = ((enabled c s ≡ true) × (routed c s ≡ true)) × AreOn s cs

  module _ (h : IsSam9x5 r v) where
    cher-eq : cher r ≡ 0xfdf
    cher-eq =
        ap (λ f. or_all (map f (1 ∷ 0 ∷ 3 ∷ 2 ∷ 4 ∷ 7 ∷ 6 ∷ 9 ∷ 8 ∷ 11 ∷ 10 ∷ []))) (fun_ext h.bit)

    routed-pins :
        (c : ℕ) (ns : List ℕ) (s : State)
        → c < 12
        → has (pin_of c) ns ≡ true
        → routed c (replay r v (map (mux 2 1) ns) s) ≡ true
    unfolding replay
    routed-pins c [] s lt e = absurd (ground (arith, e))
    routed-pins c (n ∷ ns) s lt e = elim (Bool-cases (n == pin_of c)) [
      | inl same ↦
          rw ((==_iff n (pin_of c)).0 same) (h.routes c (replay r v (map (mux 2 1) ns) s) lt)
      | inr other ↦ h.mux_stays c n _ (routed-pins c ns s lt (rw other at e))
    ]

    set_up_on :
        (c : ℕ) (s : State)
        → c < 12
        → has_bit c 0xfdf ≡ true
        → has (pin_of c) (17 ∷ 15 ∷ 14 ∷ 13 ∷ 12 ∷ 11 ∷ 10 ∷ 9 ∷ 8 ∷ 7 ∷ 6 ∷ []) ≡ true
        → (enabled c (replay r v (reverse (adc_setup r)) s) ≡ true)
          × (routed c (replay r v (reverse (adc_setup r)) s) ≡ true)
    unfolding replay
    set_up_on c s lt on pin = (
      h.mode_keeps c _ _ ∙ h.enables c (cher r) _ ∙ rw (cher-eq, on) refl,
      h.write_stays c _ _ _ (
          h.write_stays c _ _ _ (
            h.write_stays c _ _ _
              (routed-pins c (17 ∷ 15 ∷ 14 ∷ 13 ∷ 12 ∷ 11 ∷ 10 ∷ 9 ∷ 8 ∷ 7 ∷ 6 ∷ []) s lt pin))),
    )

    -- A channel that has its bit and its pin among those of the source.
    abbrev suits : ℕ → Bool
    suits c =
        ltb c 12
        && (has_bit c 0xfdf
            && has (pin_of c) (17 ∷ 15 ∷ 14 ∷ 13 ∷ 12 ∷ 11 ∷ 10 ∷ 9 ∷ 8 ∷ 7 ∷ 6 ∷ []))

    abbrev all_suit : List ℕ → Bool
    all_suit [] = true
    all_suit (c ∷ cs) = suits c && all_suit cs

    suiting-AreOn :
        (s : State) (cs : List ℕ)
        → all_suit cs ≡ true
        → AreOn (replay r v (reverse (adc_setup r)) s) cs
    suiting-AreOn s [] e = tt
    suiting-AreOn s (c ∷ cs) e =
        let (own, rest) = both_true (suits c) (all_suit cs) e in
        let (lt, bit_pin) = both_true (ltb c 12) _ own in
        let (on, pin) = both_true (has_bit c 0xfdf) _ bit_pin in
        (set_up_on c s (ltb→lt c 12 lt) on pin, suiting-AreOn s cs rest)

    -- Every channel that the interrupt reads is converted.
    pub set_up-AreOn : (s : State) → AreOn (replay r v (reverse (adc_setup r)) s) channels
    set_up-AreOn s = suiting-AreOn s channels refl
