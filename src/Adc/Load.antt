-- ===== src/Adc/Load.antt =====
-- `at91adc_init` and `at91adc_exit` of at91adc/at91adc.c, and what they acquire and release.
pub mod Settles
use at91_sam9x25_drivers.Prelude.{
  ◌>>=◌, ℕ, Bool, true, false, not, Option, none, some, List, [], ◌∷◌, map, ◌&&◌, ◌++◌,
  if◌then◌else◌,
}
use at91_sam9x25_drivers.Kernel.{Ret, val, err, ecanceled, eacces, ebusy, is_nonzero}
use at91_sam9x25_drivers.Adc.{channels}
use at91_sam9x25_drivers.Adc.Registers.{Registers, Access, mux, iowrite32, or_all, perform}

-- The registration, each buffer's memory, the two clocks, the two mappings and the interrupt; and the
-- accesses to the converter, with those that give it its pins, and to the timer, the last first.
pub record Held : Type 0 where
  pub misc : Bool
  pub bufs : List Bool
  pub adc_clk : Bool
  pub adc_base : Bool
  pub tc1_clk : Bool
  pub tc1_base : Bool
  pub irq : Bool
  pub adc : List Access
  pub tc1 : List Access

-- What the kernel answers: the results of `misc_register` and `request_irq`, whether the `kmalloc`
-- of a channel's buffer succeeds, and whether each `ioremap_nocache` does.
pub record Answers : Type 0 where
  pub misc_register : Ret
  pub kmalloc : ℕ → Bool
  pub map_adc : Bool
  pub map_tc1 : Bool
  pub request_irq : Ret

-- Releasing what is not held is a fault, `none`.
abbrev pub misc_deregister : Held → Option Held
misc_deregister h = if h.misc then some (record h { misc = false }) else none

abbrev pub disable_adc : Held → Option Held
disable_adc h = if h.adc_clk then some (record h { adc_clk = false }) else none

abbrev pub unmap_adc : Held → Option Held
unmap_adc h = if h.adc_base then some (record h { adc_base = false }) else none

abbrev pub disable_tc1 : Held → Option Held
disable_tc1 h = if h.tc1_clk then some (record h { tc1_clk = false }) else none

abbrev pub unmap_tc1 : Held → Option Held
unmap_tc1 h = if h.tc1_base then some (record h { tc1_base = false }) else none

abbrev pub free_irq : Held → Option Held
free_irq h = if h.irq then some (record h { irq = false }) else none

-- The eleven `kfree` calls: one of NULL does nothing.
abbrev pub kfree_bufs : Held → Held
kfree_bufs h = record h { bufs = map (λ _. false) h.bufs }

-- The labels of `at91adc_init`, from the last to the first.
unfoldable pub exit_3 : Ret → Held → Option (Ret × Held)
exit_3 ret h = do h' ← misc_deregister (kfree_bufs h); some (ret, h')

unfoldable pub exit_4 : Ret → Held → Option (Ret × Held)
exit_4 ret h = do h' ← disable_adc h; exit_3 ret h'

unfoldable pub exit_5 : Ret → Held → Option (Ret × Held)
exit_5 ret h = do h1 ← disable_tc1 h; h2 ← unmap_adc h1; exit_4 ret h2

unfoldable pub exit_6 : Ret → Held → Option (Ret × Held)
exit_6 ret h = do h' ← unmap_tc1 h; exit_5 ret h'

abbrev pub all : List Bool → Bool
all [] = true
all (b ∷ bs) = b && all bs

-- Nothing held, and, for buffers of which `bufs` could be had, the registration and these.
abbrev pub nothing : Held
nothing = record {
  misc = false;
  bufs = map (λ _. false) channels;
  adc_clk = false;
  adc_base = false;
  tc1_clk = false;
  tc1_base = false;
  irq = false;
  adc = [];
  tc1 = [];
}

module _ (r : Registers) where
  open r use {
    adc_cr, adc_mr, adc_cher, adc_swrst, adc_sleep, adc_ch, adc_shtim, adc_startup, adc_prescal,
    tc_rc, tc_cmr, tc_ier, tc_ccr, tc_wave, tc_wavesel_up_auto, tc_cpcs, tc_swtrg, tc_clken,
  }

  -- The pins PB6 to PB15 and PB17.
  abbrev pub pins : List Access
  pins = map (mux 2 1) (6 ∷ 7 ∷ 8 ∷ 9 ∷ 10 ∷ 11 ∷ 12 ∷ 13 ∷ 14 ∷ 15 ∷ 17 ∷ [])

  -- The channels that are enabled, in the order of the source.
  abbrev pub cher : ℕ
  cher = or_all (map adc_ch (1 ∷ 0 ∷ 3 ∷ 2 ∷ 4 ∷ 7 ∷ 6 ∷ 9 ∷ 8 ∷ 11 ∷ 10 ∷ []))

  -- What is done to the converter: its pins, a reset, the channels and the mode.
  abbrev pub adc_setup : List Access
  adc_setup =
      pins
      ++ iowrite32 adc_swrst adc_cr
        ∷ iowrite32 cher adc_cher
        ∷ iowrite32 (or_all (adc_shtim 9 ∷ adc_startup 9 ∷ adc_prescal 9 ∷ adc_sleep ∷ [])) adc_mr
        ∷ []

  -- What is done to the timer.
  abbrev pub tc_setup : List Access
  tc_setup =
      iowrite32 3000 tc_rc
      ∷ iowrite32 (or_all (tc_wave ∷ tc_wavesel_up_auto ∷ [])) tc_cmr
      ∷ iowrite32 tc_cpcs tc_ier
      ∷ iowrite32 (or_all (tc_swtrg ∷ tc_clken ∷ [])) tc_ccr
      ∷ []

  -- `request_irq` and what follows.
  unfoldable pub install_irq : Answers → Held → Option (Ret × Held)
  install_irq k h =
      if is_nonzero k.request_irq
      then exit_6 (err ebusy) h
      else some (val 0, record h { irq = true })

  -- From the clock of the timer on.
  unfoldable pub start_timer : Answers → Held → Option (Ret × Held)
  start_timer k h =
      let h1 = record h { tc1_clk = true } in
      if not k.map_tc1 then exit_5 (err eacces) h1 else do
        let h2 = record h1 { tc1_base = true }
        tc1 ← perform (h2.tc1_base && h2.tc1_clk) tc_setup h2.tc1
        install_irq k (record h2 { tc1 = tc1 })

  -- From the clock of the converter on.
  unfoldable pub start_adc : Answers → Held → Option (Ret × Held)
  start_adc k h =
      let h1 = record h { adc_clk = true } in
      if not k.map_adc then exit_4 (err eacces) h1 else do
        let h2 = record h1 { adc_base = true }
        adc ← perform (h2.adc_base && h2.adc_clk) adc_setup h2.adc
        start_timer k (record h2 { adc = adc })

  unfoldable pub at91adc_init : Answers → Option (Ret × Held)
  at91adc_init k =
      if is_nonzero k.misc_register
      then some (k.misc_register, nothing)
      else (let h = record nothing { misc = true; bufs = map k.kmalloc channels } in
          if not (all h.bufs) then exit_3 (err ecanceled) h else start_adc k h)

-- `at91tc0_isr` accesses the converter and the timer: while it is installed, an interrupt that finds
-- one of them without its mapping or its clock is a fault, and any other leaves what is held.
unfoldable pub interrupt : (comes : Bool) → Held → Option Held
interrupt comes h =
    let served = h.adc_base && h.adc_clk && h.tc1_base && h.tc1_clk in
    if comes && h.irq && not served then none else some h

-- `comes i` tells whether an interrupt comes right before step `i`. The buffers are not freed here.
unfoldable pub at91adc_exit : (comes : ℕ → Bool) → Held → Option Held
at91adc_exit comes h = do
  h1 ← interrupt (comes 0) h >>= disable_adc
  h2 ← interrupt (comes 1) h1 >>= disable_tc1
  h3 ← interrupt (comes 2) h2 >>= free_irq
  h4 ← interrupt (comes 3) h3 >>= unmap_adc
  h5 ← interrupt (comes 4) h4 >>= unmap_tc1
  interrupt (comes 5) h5 >>= misc_deregister
