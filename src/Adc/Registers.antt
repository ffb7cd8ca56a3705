-- ===== src/Adc/Registers.antt =====
-- The registers of the converter and of its timer, as at91adc/at91adc.c and the driver that it was
-- made from write them while they load.
use at91_sam9x25_drivers.Prelude.{
  ℕ, ◌/◌, ◌%◌, ◌^◌, Bool, Option, none, some, List, [], ◌∷◌, ◌==◌, if◌then◌else◌,
}
use Prim.Native.Nat.{bit_or}

-- The constants of the kernel's headers at91_adc.h and at91_tc.h, without their prefixes.
pub record Registers : Type 0 where
  pub adc_cr : ℕ
  pub adc_mr : ℕ
  pub adc_cher : ℕ
  pub adc_swrst : ℕ
  pub adc_start : ℕ
  pub adc_sleep : ℕ
  pub adc_trgen : ℕ
  pub adc_ch : ℕ → ℕ
  pub adc_chr : ℕ → ℕ
  pub adc_shtim : ℕ → ℕ
  pub adc_startup : ℕ → ℕ
  pub adc_prescal : ℕ → ℕ
  pub tc_rc : ℕ
  pub tc_cmr : ℕ
  pub tc_ier : ℕ
  pub tc_ccr : ℕ
  pub tc_wave : ℕ
  pub tc_wavesel_up_auto : ℕ
  pub tc_cpcs : ℕ
  pub tc_swtrg : ℕ
  pub tc_clken : ℕ

-- `mux` gives a pin to a peripheral: `at91_set_A_periph` is 0 and `at91_set_C_periph` is 2, ports are
-- counted from PA. `iowrite32` has the offset from the base of the registers.
pub data Access : Type 0 where
  mux : (peripheral port pin : ℕ) → Access
  iowrite32 : (value offset : ℕ) → Access

-- `a | b | …`
abbrev pub or_all : List ℕ → ℕ
or_all [] = 0
or_all (v ∷ vs) = bit_or v (or_all vs)

-- Accesses one after another, behind those that were made, the last first. To write a register that
-- is not both mapped and clocked is a fault, `none`.
unfoldable pub perform : (ready : Bool) → List Access → List Access → Option (List Access)
perform ready [] made = some made
perform ready (mux f p n ∷ rest) made = perform ready rest (mux f p n ∷ made)
perform ready (iowrite32 v o ∷ rest) made =
    let done = perform ready rest (iowrite32 v o ∷ made) in if ready then done else none

-- Bit `c` of a word.
abbrev pub has_bit : ℕ → ℕ → Bool
has_bit c v = (v / 2 ^ c) % 2 == 1
