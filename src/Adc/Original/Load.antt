-- ===== src/Adc/Original/Load.antt =====
-- `at91adc_init` and `at91adc_exit` of at91adc/at91adc原版.c, and what they acquire and release.
pub mod Leaves
use at91_sam9x25_drivers.Prelude.{
  ◌>>=◌, ◌≡◌, refl, Bool, true, false, not, ◌&&◌, Option, none, some, List, [], ◌∷◌, if◌then◌else◌,
  ◌⊎◌, inl, inr, Bool-cases, both_true,
}
use at91_sam9x25_drivers.Adc.Registers.{Registers, Access, mux, iowrite32, or_all, perform}
use at91_sam9x25_drivers.Kernel.{
  Ret, val, err, ecanceled, eacces, ebusy, enodev, is_nonzero, is_negative,
}

-- The device numbers, the registered device, the two buffers, the two clocks, the two mappings and
-- the interrupt; and the accesses to the converter, with those that give it its pins, and to the
-- timer, the last first.
pub record Held : Type 0 where
  pub region : Bool
  pub cdev : Bool
  pub buf0 : Bool
  pub buf1 : Bool
  pub adc_clk : Bool
  pub adc_base : Bool
  pub tc0_clk : Bool
  pub tc0_base : Bool
  pub irq : Bool
  pub adc : List Access
  pub tc0 : List Access

-- What the kernel answers: results, and whether an allocation or a mapping succeeds.
pub record Answers : Type 0 where
  pub alloc_chrdev_region : Ret
  pub cdev_add : Ret
  pub kmalloc0 : Bool
  pub kmalloc1 : Bool
  pub map_adc : Bool
  pub map_tc0 : Bool
  pub request_irq : Ret

abbrev pub nothing : Held
nothing = record {
  region = false;
  cdev = false;
  buf0 = false;
  buf1 = false;
  adc_clk = false;
  adc_base = false;
  tc0_clk = false;
  tc0_base = false;
  irq = false;
  adc = [];
  tc0 = [];
}

-- Releasing what is not held is a fault, `none`; `kfree` of NULL does nothing.
abbrev pub unregister_chrdev_region : Held → Option Held
unregister_chrdev_region h = if h.region then some (record h { region = false }) else none

abbrev pub disable_adc : Held → Option Held
disable_adc h = if h.adc_clk then some (record h { adc_clk = false }) else none

abbrev pub disable_tc0 : Held → Option Held
disable_tc0 h = if h.tc0_clk then some (record h { tc0_clk = false }) else none

abbrev pub unmap_adc : Held → Option Held
unmap_adc h = if h.adc_base then some (record h { adc_base = false }) else none

abbrev pub unmap_tc0 : Held → Option Held
unmap_tc0 h = if h.tc0_base then some (record h { tc0_base = false }) else none

abbrev pub free_irq : Held → Option Held
free_irq h = if h.irq then some (record h { irq = false }) else none

abbrev pub kfree_bufs : Held → Held
kfree_bufs h = record h { buf0 = false; buf1 = false }

-- The labels of `at91adc_init`, from the last to the first.
abbrev pub exit_2 : Ret → Held → Option (Ret × Held)
exit_2 ret h = do h' ← unregister_chrdev_region h; some (ret, h')

unfoldable pub exit_3 : Ret → Held → Option (Ret × Held)
exit_3 ret h = exit_2 ret (kfree_bufs h)

unfoldable pub exit_4 : Ret → Held → Option (Ret × Held)
exit_4 ret h = do h' ← disable_adc h; exit_3 ret h'

unfoldable pub exit_5 : Ret → Held → Option (Ret × Held)
exit_5 ret h = do h1 ← disable_tc0 h; h2 ← unmap_adc h1; exit_4 ret h2

unfoldable pub exit_6 : Ret → Held → Option (Ret × Held)
exit_6 ret h = do h' ← unmap_tc0 h; exit_5 ret h'

module _ (r : Registers) where
  open r use {
    adc_cr, adc_mr, adc_cher, adc_swrst, adc_sleep, adc_trgen, adc_ch, adc_shtim, adc_startup,
    adc_prescal, tc_rc, tc_cmr, tc_ier, tc_ccr, tc_wave, tc_wavesel_up_auto, tc_cpcs, tc_swtrg,
    tc_clken,
  }

  -- What is done to the converter: pins PC0 and PC1, a reset, the channels and the mode.
  abbrev pub adc_setup : List Access
  adc_setup =
      mux 0 2 0
      ∷ mux 0 2 1
      ∷ iowrite32 adc_swrst adc_cr
      ∷ iowrite32 (or_all (adc_ch 1 ∷ adc_ch 0 ∷ [])) adc_cher
      ∷ iowrite32
          (or_all (adc_shtim 9 ∷ adc_startup 9 ∷ adc_prescal 9 ∷ adc_sleep ∷ adc_trgen ∷ [])) adc_mr
      ∷ []

  -- What is done to the timer.
  abbrev pub tc_setup : List Access
  tc_setup =
      iowrite32 50000 tc_rc
      ∷ iowrite32 (or_all (tc_wave ∷ tc_wavesel_up_auto ∷ [])) tc_cmr
      ∷ iowrite32 tc_cpcs tc_ier
      ∷ iowrite32 (or_all (tc_swtrg ∷ tc_clken ∷ [])) tc_ccr
      ∷ []

  -- `at91adc_init`, from its last part to its first.
  unfoldable pub install_irq : Answers → Held → Option (Ret × Held)
  unfolding exit_6
  install_irq k h =
      if is_nonzero k.request_irq
      then exit_6 (err ebusy) h
      else some (val 0, record h { irq = true })

  unfoldable pub start_timer : Answers → Held → Option (Ret × Held)
  unfolding install_irq perform
  start_timer k h =
      let h1 = record h { tc0_clk = true } in
      if not k.map_tc0 then exit_5 (err eacces) h1 else do
        let h2 = record h1 { tc0_base = true }
        tc0 ← perform (h2.tc0_base && h2.tc0_clk) tc_setup h2.tc0
        install_irq k (record h2 { tc0 = tc0 })

  unfoldable pub start_adc : Answers → Held → Option (Ret × Held)
  unfolding exit_3 exit_4 exit_5 start_timer
  start_adc k h =
      let h1 = record h { adc_clk = true } in
      if not k.map_adc then exit_4 (err eacces) h1 else do
        let h2 = record h1 { adc_base = true }
        adc ← perform (h2.adc_base && h2.adc_clk) adc_setup h2.adc
        start_timer k (record h2 { adc = adc })

  unfoldable pub start_buffers : Answers → Held → Option (Ret × Held)
  unfolding start_adc
  start_buffers k h =
      let h1 = record h { buf0 = k.kmalloc0; buf1 = k.kmalloc1 } in
      if not (k.kmalloc0 && k.kmalloc1) then exit_3 (err ecanceled) h1 else start_adc k h1

  unfoldable pub at91adc_init : Answers → Option (Ret × Held)
  unfolding start_buffers
  at91adc_init k =
      if is_negative k.alloc_chrdev_region
      then some (err enodev, nothing)
      else (let h = record nothing { region = true } in
          if is_nonzero k.cdev_add
          then exit_2 (err ecanceled) h
          else start_buffers k (record h { cdev = true }))

unfoldable pub at91adc_exit : Held → Option Held
at91adc_exit h = do
  h1 ← disable_adc h
  h2 ← disable_tc0 h1
  h3 ← free_irq h2
  h4 ← unmap_adc h3
  h5 ← unmap_tc0 h4
  unregister_chrdev_region (kfree_bufs h5)
