-- ===== src/Adc/Load/Settles.antt =====
-- Loading at91adc/at91adc.c is done whole or undone whole; unloading it is not.
use at91_sam9x25_drivers.Prelude.{
  ℕ, ◌≡◌, refl, ap₂, ◌⊎◌, inl, inr, Bool, true, Bool-cases, Option, none, some, arith, List, [],
  ◌∷◌, map, reverse, false, not, ◌&&◌, if◌then◌else◌, ◌||◌,
}
use at91_sam9x25_drivers.Kernel.{Ret, val, is_nonzero}
use at91_sam9x25_drivers.Adc.{channels}
use at91_sam9x25_drivers.Adc.Registers.{Registers, perform}
use at91_sam9x25_drivers.Adc.Load.{
  Held, Answers, nothing, all, at91adc_init, at91adc_exit, start_adc, start_timer, install_irq,
  exit_3, exit_4, exit_5, exit_6, interrupt, adc_setup, tc_setup,
}

all-true :
    (alloc : ℕ → Bool) (cs : List ℕ) → all (map alloc cs) ≡ true → map alloc cs ≡ map (λ _. true) cs
all-true alloc [] e = refl
all-true alloc (c ∷ cs) e = elim (Bool-cases (alloc c)) [
  | inl y ↦ ap₂ ◌∷◌ y (all-true alloc cs (rw y at e))
  | inr n ↦ absurd (grind (arith, n, e))
]

-- Only the memory of the eleven buffers.
abbrev pub leaked : Held
leaked = record nothing { bufs = map (λ _. true) channels }

-- What is held, without what has been done to the hardware.
abbrev pub ledger : Held → Held
ledger h = record h { adc = []; tc1 = [] }

-- An interrupt that is freed, or that finds what it needs.
interrupt-served :
    (comes : Bool) (h : Held)
    → (h.irq && not (h.adc_base && h.adc_clk && h.tc1_base && h.tc1_clk)) ≡ false
    → interrupt comes h ≡ some h
unfolding interrupt
interrupt-served true h e = rw e refl
interrupt-served false h e = refl

-- One that finds a clock stopped.
interrupt-clockless :
    (comes : Bool) (h : Held)
    → (h.irq && not (h.adc_base && h.adc_clk && h.tc1_base && h.tc1_clk)) ≡ true
    → interrupt comes h ≡ (if comes then none else some h)
unfolding interrupt
interrupt-clockless true h e = rw e refl
interrupt-clockless false h e = refl

module _ (r : Registers) where
  -- All of it held, and all accesses made.
  abbrev pub loaded : Held
  loaded = record {
    misc = true;
    bufs = map (λ _. true) channels;
    adc_clk = true;
    adc_base = true;
    tc1_clk = true;
    tc1_base = true;
    irq = true;
    adc = reverse (adc_setup r);
    tc1 = reverse (tc_setup r);
  }

  -- A run of the loading: no fault, and 0 with everything held, of which unloading leaves the
  -- buffers, unless an interrupt comes while it stops the clocks, or an error with nothing held.
  abbrev pub IsSettled : Option (Ret × Held) → Type 0
  IsSettled none = ⊥
  IsSettled (some (ret, h)) =
      ((ret ≡ val 0)
        × (h ≡ loaded)
        × ((comes : ℕ → Bool)
            → at91adc_exit comes h ≡ (
                if comes 1 || comes 2
                then none
                else some (record leaked { adc = h.adc; tc1 = h.tc1 }))))
      ⊎ ((is_nonzero ret ≡ true) × (ledger h ≡ nothing))

  loaded-exit :
      (comes : ℕ → Bool)
      → at91adc_exit comes loaded ≡ (
          if comes 1 || comes 2
          then none
          else some (record leaked { adc = loaded.adc; tc1 = loaded.tc1 }))
  unfolding at91adc_exit
  loaded-exit comes =
      let stopped = record loaded { adc_clk = false } in
      let both = record stopped { tc1_clk = false } in
      let freed = record both { irq = false } in
      let unmapped = record freed { adc_base = false } in
      rw (interrupt-served (comes 0) loaded refl, interrupt-clockless (comes 1) stopped refl)
        (elim (Bool-cases (comes 1)) [
          | inl e ↦ rw e refl
          | inr e ↦
              rw (e, interrupt-clockless (comes 2) both refl)
                (elim (Bool-cases (comes 2)) [
                  | inl e' ↦ rw e' refl
                  | inr e' ↦
                      rw
                        (
                          e',
                          interrupt-served (comes 3) freed refl,
                          interrupt-served (comes 4) unmapped refl,
                          interrupt-served (comes 5) (record unmapped { tc1_base = false }) refl,
                        )
                        refl
                ])
        ])

  start_adc-IsSettled :
      (k : Answers) (bufs : List Bool)
      → bufs ≡ map (λ _. true) channels
      → IsSettled (start_adc r k (record nothing { misc = true; bufs = bufs }))
  unfolding start_adc start_timer install_irq exit_3 exit_4 exit_5 exit_6 at91adc_exit perform
  start_adc-IsSettled k bufs e = elim (Bool-cases k.map_adc) [
    | inr no_adc ↦ rw (e, no_adc) (inr (refl, refl))
    | inl adc ↦ elim (Bool-cases k.map_tc1) [
      | inr no_tc1 ↦ rw (e, adc, no_tc1) (inr (refl, refl))
      | inl tc1 ↦ elim (Bool-cases (is_nonzero k.request_irq)) [
        | inl no_irq ↦ rw (e, adc, tc1, no_irq) (inr (refl, refl))
        | inr irq ↦ rw (e, adc, tc1, irq) (inl (refl, refl, loaded-exit))
      ]
    ]
  ]

  -- Whatever the kernel answers, loading never releases what is not held and never writes a register
  -- that is not both mapped and clocked; it returns an error with nothing left held, or 0 with
  -- everything acquired and both devices set up. Then unloading releases everything but the eleven
  -- buffers, whose memory is never freed, wherever interrupts come between its steps, except that one
  -- after the first or the second step finds a clock stopped: the interrupt is freed only behind them.
  pub init-IsSettled : (k : Answers) → IsSettled (at91adc_init r k)
  unfolding at91adc_init exit_3
  init-IsSettled k = elim (Bool-cases (is_nonzero k.misc_register)) [
    | inl e ↦ rw e (inr (e, refl))
    | inr e ↦ elim (Bool-cases (all (map k.kmalloc channels))) [
      | inr short ↦ rw (e, short) (inr (refl, refl))
      | inl got ↦
          rw (e, got)
            (start_adc-IsSettled k (map k.kmalloc channels) (all-true k.kmalloc channels got))
    ]
  ]
