-- ===== src/Adc/Converter.antt =====
-- The converter of the processor, which is not code of the repository: a parameter, and what the
-- data sheet says of it as far as at91adc/at91adc.c relies on it.
use at91_sam9x25_drivers.Prelude.{
  ℕ, ◌+◌, ◌-◌, ◌^◌, ◌<◌, ◌≤◌, ◌≡◌, zero, suc, Bool, true, false, List, [], ◌∷◌, leb, ◌||◌,
  if◌then◌else◌,
}
use at91_sam9x25_drivers.Adc.Registers.{Registers, Access, mux, iowrite32, has_bit}

-- `sense` lets the converter's inputs have other values; `cpu_relax` is one round of the source's wait
-- and `idle` the time from the end of an interrupt to the next one; `takes c` is for how many rounds
-- after the start of a conversion the result of channel `c` is not there yet; `enabled c` is the bit of channel `c` in
-- the channel status register, `routed c` whether the pin of the channel is given to the converter.
pub record Converter : Type 1 where
  pub State : Type 0
  pub sense : (ℕ → ℕ) → State → State
  pub do_access : Access → State → State
  pub cpu_relax : State → State
  pub idle : State → State
  pub takes : ℕ → ℕ
  pub ioread32 : (offset : ℕ) → State → ℕ
  pub enabled : ℕ → State → Bool
  pub routed : ℕ → State → Bool

-- Pins PB11 to PB17 are channels 0 to 6, and PB6 to PB10 channels 7 to 11.
abbrev pub pin_of : ℕ → ℕ
pin_of c = if leb c 6 then 11 + c else c - 1

module _ (r : Registers) (v : Converter) where
  open r use {adc_cr, adc_mr, adc_cher, adc_swrst, adc_start, adc_ch, adc_chr}
  open v use {State, sense, do_access, cpu_relax, idle, takes, ioread32, enabled, routed}

  -- A conversion of the values `f` that was started `n` rounds of the wait ago.
  abbrev pub converting : (n : ℕ) (f : ℕ → ℕ) → State → State
  converting zero f s = do_access (iowrite32 adc_start adc_cr) (sense f s)
  converting (suc n) f s = cpu_relax (converting n f s)

  pub record IsSam9x5 : Type 0 where
    -- The bit of a channel in the registers of channels.
    pub bit : (c : ℕ) → adc_ch c ≡ 2 ^ c
    -- A write of the register that enables channels, of another one, or of a pin.
    pub enables :
        (c m : ℕ) (s : State)
        → enabled c (do_access (iowrite32 m adc_cher) s) ≡ (has_bit c m || enabled c s)
    pub mode_keeps :
        (c m : ℕ) (s : State) → enabled c (do_access (iowrite32 m adc_mr) s) ≡ enabled c s
    pub start_keeps :
        (c : ℕ) (s : State) → enabled c (do_access (iowrite32 adc_start adc_cr) s) ≡ enabled c s
    pub reset_disables :
        (c : ℕ) (s : State) → enabled c (do_access (iowrite32 adc_swrst adc_cr) s) ≡ false
    pub sense_keeps : (c : ℕ) (f : ℕ → ℕ) (s : State) → enabled c (sense f s) ≡ enabled c s
    -- Where pins are given to peripheral C only, no channel loses its pin.
    pub routes : (c : ℕ) (s : State) → c < 12 → routed c (do_access (mux 2 1 (pin_of c)) s) ≡ true
    pub mux_stays :
        (c n : ℕ) (s : State) → routed c s ≡ true → routed c (do_access (mux 2 1 n) s) ≡ true
    pub write_stays :
        (c m o : ℕ) (s : State) → routed c s ≡ true → routed c (do_access (iowrite32 m o) s) ≡ true
    pub sense_stays :
        (c : ℕ) (f : ℕ → ℕ) (s : State) → routed c s ≡ true → routed c (sense f s) ≡ true
    pub relax_keeps : (c : ℕ) (s : State) → enabled c (cpu_relax s) ≡ enabled c s
    pub relax_stays : (c : ℕ) (s : State) → routed c s ≡ true → routed c (cpu_relax s) ≡ true
    pub idle_keeps : (c : ℕ) (s : State) → enabled c (idle s) ≡ enabled c s
    pub idle_stays : (c : ℕ) (s : State) → routed c s ≡ true → routed c (idle s) ≡ true
    -- The register of a channel holds the result of the last conversion that is done, so the earlier
    -- one while one is going on, and then the input, if the channel is enabled and has its pin.
    pub holds :
        (c n : ℕ) (f : ℕ → ℕ) (s : State)
        → n < takes c
        → ioread32 (adc_chr c) (converting n f s) ≡ ioread32 (adc_chr c) s
    pub converts :
        (c n : ℕ) (f : ℕ → ℕ) (s : State)
        → enabled c s ≡ true
        → routed c s ≡ true
        → takes c ≤ n
        → ioread32 (adc_chr c) (converting n f s) ≡ f c
    -- Conversions are done before the next interrupt.
    pub ends :
        (c n : ℕ) (f : ℕ → ℕ) (s : State)
        → enabled c s ≡ true
        → routed c s ≡ true
        → ioread32 (adc_chr c) (idle (converting n f s)) ≡ f c

  -- The accesses of a list, the last first.
  unfoldable pub replay : List Access → State → State
  replay [] s = s
  replay (a ∷ rest) s = do_access a (replay rest s)
