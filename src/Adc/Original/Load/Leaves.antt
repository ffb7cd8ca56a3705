-- ===== src/Adc/Original/Load/Leaves.antt =====
-- What loading and unloading at91adc/at91adc原版.c leave behind.
use at91_sam9x25_drivers.Prelude.{
  ◌≡◌, refl, true, false, Option, none, some, ◌&&◌, ◌⊎◌, inl, inr, Bool-cases, both_true, reverse,
}
use at91_sam9x25_drivers.Kernel.{Ret, val, is_nonzero, is_negative}
use at91_sam9x25_drivers.Adc.Registers.{Registers, perform}
use at91_sam9x25_drivers.Adc.Original.Load.{
  Held, Answers, nothing, at91adc_init, at91adc_exit, start_buffers, start_adc, start_timer, exit_3,
  exit_4, exit_5, adc_setup, tc_setup, install_irq,
}

-- Only the device is registered still, of what is held: what has been done to the hardware remains.
abbrev pub registered : Held → Held
registered h = record nothing { cdev = true; adc = h.adc; tc0 = h.tc0 }

module _ (r : Registers) where
  -- Loading has failed with nothing but the registered device left, or it has succeeded, has set up
  -- both devices, and unloading leaves the same.
  abbrev pub LeavesDevice : Option (Ret × Held) → Type 0
  LeavesDevice none = ⊥
  LeavesDevice (some (ret, h)) =
      ((is_nonzero ret ≡ true) × (h ≡ registered h))
      ⊎ ((ret ≡ val 0)
          × (h.adc ≡ reverse (adc_setup r))
          × (h.tc0 ≡ reverse (tc_setup r))
          × (at91adc_exit h ≡ some (registered h)))

  start_timer-LeavesDevice :
      (k : Answers)
      → LeavesDevice (
          start_timer r k (record nothing {
            cdev = true;
            region = true;
            buf0 = true;
            buf1 = true;
            adc_clk = true;
            adc_base = true;
            adc = reverse (adc_setup r);
          }))
  unfolding start_timer install_irq exit_3 exit_4 exit_5 at91adc_exit perform
  start_timer-LeavesDevice k = elim (Bool-cases k.map_tc0) [
    | inr no_tc0 ↦ rw no_tc0 (inl (refl, refl))
    | inl tc0 ↦ elim (Bool-cases (is_nonzero k.request_irq)) [
      | inl no_irq ↦ rw (tc0, no_irq) (inl (refl, refl))
      | inr irq ↦ rw (tc0, irq) (inr (refl, refl, refl, refl))
    ]
  ]

  -- Once the kernel has registered the device, it stays registered: also where loading fails later,
  -- and also after unloading. Everything else is released in both cases, each thing once. No register
  -- is written that is not both mapped and clocked.
  pub init-LeavesDevice :
      (k : Answers)
      → is_negative k.alloc_chrdev_region ≡ false
      → is_nonzero k.cdev_add ≡ false
      → LeavesDevice (at91adc_init r k)
  unfolding at91adc_init start_buffers start_adc exit_3 exit_4 perform
  init-LeavesDevice k numbers device = elim (Bool-cases (k.kmalloc0 && k.kmalloc1)) [
    | inr short ↦ rw (numbers, device, short) (inl (refl, refl))
    | inl got ↦ elim (Bool-cases k.map_adc) [
      | inr no_adc ↦ rw (numbers, device, got, no_adc) (inl (refl, refl))
      | inl adc ↦
          let (b0, b1) = both_true k.kmalloc0 k.kmalloc1 got in
          rw (numbers, device, b0, b1, adc) (start_timer-LeavesDevice k)
    ]
  ]
