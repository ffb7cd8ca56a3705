-- ===== src/Adc/Device/Averages.antt =====
-- From the converter's inputs to what a read of at91adc/at91adc.c hands to the user.
use at91_sam9x25_drivers.Prelude.{
  ℕ, ◌≡◌, refl, subst, ◌∙◌, Bool, some, List, [], ◌∷◌, map, reverse, if◌then◌else◌, Option-cases,
  inl, inr, arith, zero, suc, leb, Bool-cases,
}
use at91_sam9x25_drivers.Kernel.{val, err, efault}
use at91_sam9x25_drivers.Adc.{Adc, channels, sample, at91tc0_isr, at91adc_read, cleared, after}
use at91_sam9x25_drivers.Adc.Average.{average, read-averages}
use at91_sam9x25_drivers.Adc.Registers.{Registers}
use at91_sam9x25_drivers.Adc.Converter.{Converter, IsSam9x5, converting, replay}
use at91_sam9x25_drivers.Adc.Load.{Held, Answers, at91adc_init, adc_setup}
use at91_sam9x25_drivers.Adc.Load.Settles.{IsSettled, loaded, init-IsSettled}
use at91_sam9x25_drivers.Adc.Device.{Device, serve, serve_all, boot}
use at91_sam9x25_drivers.Adc.Device.SetUp.{AreOn, set_up-AreOn}

-- Two readings of the registers that agree on the channels of a list.
abbrev Agree : (f g : ℕ → ℕ) → List ℕ → Type 0
Agree f g [] = Unit
Agree f g (c ∷ cs) = (f c ≡ g c) × Agree f g cs

sample-Agree :
    (f g : ℕ → ℕ) (at : ℕ) (cs : List ℕ) (bs : List (List ℕ))
    → Agree f g cs
    → sample f at cs bs ≡ sample g at cs bs
unfolding sample
sample-Agree f g at [] bs a = refl
sample-Agree f g at (c ∷ cs) [] a = refl
sample-Agree f g at (c ∷ cs) (b ∷ bs) (e, a) = rw (e, sample-Agree f g at cs bs a) refl

isr-Agree : (f g : ℕ → ℕ) (s : Adc) → Agree f g channels → at91tc0_isr f s ≡ at91tc0_isr g s
unfolding at91tc0_isr
isr-Agree f g s a = rw (sample-Agree f g s.appidx channels s.bufs a) refl

-- What the registers hold once a conversion is done: the inputs of the latest interrupt, and what they
-- held at first where there is none.
abbrev pub latest : (first : ℕ → ℕ) → List (ℕ → ℕ) → ℕ → ℕ
latest first [] = first
latest first (inputs ∷ ins) = inputs

-- What an interrupt reads after its ten rounds: the channel's input if its conversion takes no longer,
-- and else what the register held `before`.
abbrev pub seen_now : (takes inputs before : ℕ → ℕ) → ℕ → ℕ
seen_now takes inputs before c = if leb (takes c) 10 then inputs c else before c

-- What each interrupt of a list reads: the inputs, or, of a channel that takes longer, those of the
-- interrupt before it.
abbrev pub seen : (takes first : ℕ → ℕ) → List (ℕ → ℕ) → List (ℕ → ℕ)
seen takes first [] = []
seen takes first (inputs ∷ ins) = seen_now takes inputs (latest first ins) ∷ seen takes first ins

same-Agree : (f : ℕ → ℕ) (cs : List ℕ) → Agree f f cs
same-Agree f [] = tt
same-Agree f (c ∷ cs) = (refl, same-Agree f cs)

module _ (r : Registers) (v : Converter) (h : IsSam9x5 r v) where
  open r use {adc_chr}
  open v use {State, idle, takes, ioread32, enabled, routed}

  converting-AreOn :
      (n : ℕ) (inputs : ℕ → ℕ) (s : State) (cs : List ℕ)
      → AreOn r v s cs
      → AreOn r v (converting r v n inputs s) cs
  converting-AreOn n inputs s [] on = tt
  converting-AreOn zero inputs s (c ∷ cs) ((e, p), on) = (
    (
      h.start_keeps c _ ∙ h.sense_keeps c inputs s ∙ e,
      h.write_stays c _ _ _ (h.sense_stays c inputs s p),
    ),
    converting-AreOn 0 inputs s cs on,
  )
  converting-AreOn (suc n) inputs s (c ∷ cs) on =
      relaxed-AreOn (converting r v n inputs s) (c ∷ cs) (converting-AreOn n inputs s (c ∷ cs) on)
    where
      relaxed-AreOn : (t : State) (ds : List ℕ) → AreOn r v t ds → AreOn r v (v.cpu_relax t) ds
      relaxed-AreOn t [] on' = tt
      relaxed-AreOn t (d ∷ ds) ((e, p), on') =
          ((h.relax_keeps d t ∙ e, h.relax_stays d t p), relaxed-AreOn t ds on')

  idle-AreOn : (s : State) (cs : List ℕ) → AreOn r v s cs → AreOn r v (idle s) cs
  idle-AreOn s [] on = tt
  idle-AreOn s (c ∷ cs) ((e, p), on) =
      ((h.idle_keeps c s ∙ e, h.idle_stays c s p), idle-AreOn s cs on)

  -- Each register of a list of channels reads what `f` has.
  abbrev Reads : (ℕ → ℕ) → State → List ℕ → Type 0
  Reads f s cs = Agree (λ c. ioread32 (adc_chr c) s) f cs

  abbrev waited : (ℕ → ℕ) → State → State
  waited = converting r v 10

  waited-Reads :
      (inputs before : ℕ → ℕ) (s : State) (cs : List ℕ)
      → AreOn r v s cs
      → Reads before s cs
      → Reads (seen_now takes inputs before) (waited inputs s) cs
  waited-Reads inputs before s [] on a = tt
  waited-Reads inputs before s (c ∷ cs) ((e, p), on) (a, rest) = (
    elim (Bool-cases (leb (takes c) 10)) [
      | inl y ↦ rw y (h.converts c 10 inputs s e p (ground (arith, y)))
      | inr n ↦ rw n (h.holds c 10 inputs s (ground (arith, n)) ∙ a)
    ],
    waited-Reads inputs before s cs on rest,
  )

  idle-Reads :
      (inputs : ℕ → ℕ) (s : State) (cs : List ℕ)
      → AreOn r v s cs
      → Reads inputs (idle (waited inputs s)) cs
  idle-Reads inputs s [] on = tt
  idle-Reads inputs s (c ∷ cs) ((e, p), on) = (h.ends c 10 inputs s e p, idle-Reads inputs s cs on)

  -- An interrupt of the device is one of the driver that reads what is there after the wait.
  serve-isr :
      (inputs before : ℕ → ℕ) (d : Device r v) (a : Adc)
      → AreOn r v d.converter channels
      → Reads before d.converter channels
      → at91tc0_isr (seen_now takes inputs before) d.adc ≡ some a
      → serve r v inputs d ≡ some (record { adc = a; converter = idle (waited inputs d.converter) })
  unfolding serve
  serve-isr inputs before d a on reads e =
      rw
        (
          isr-Agree (λ c. ioread32 (adc_chr c) (waited inputs d.converter))
              (seen_now takes inputs before) d.adc
              (waited-Reads inputs before d.converter channels on reads),
          e,
        )
        refl

  serve_all-after :
      (first : ℕ → ℕ) (ins : List (ℕ → ℕ)) (s : State) (a : Adc)
      → AreOn r v s channels
      → Reads first s channels
      → after (seen takes first ins) ≡ some a
      → (s' : State) × (serve_all r v ins (record { adc = cleared; converter = s })
          ≡ some (record { adc = a; converter = s' }))
        × AreOn r v s' channels
        × Reads (latest first ins) s' channels
  unfolding serve_all after
  serve_all-after first [] s a on reads e = (s, ground (arith, e), on, reads)
  serve_all-after first (i ∷ ins) s a on reads e =
      elim (Option-cases (after (seen takes first ins))) [
        | inl gone ↦ absurd (grind (arith, rw gone at e))
        | inr (a1, e1) ↦
            let (s1, run, on1, reads1) = serve_all-after first ins s a1 on reads e1 in
            (
              idle (waited i s1),
              rw run (
                  serve-isr i (latest first ins) (record { adc = a1; converter = s1 }) a on1 reads1
                    (rw e1 at e)),
              idle-AreOn (waited i s1) channels (converting-AreOn 10 i s1 channels on1),
              idle-Reads i s1 channels on1,
            )
      ]

  loaded-once :
      (k : Answers) (held : Held) → at91adc_init r k ≡ some (val 0, held) → held ≡ loaded r
  loaded-once k held e = elim (subst (IsSettled r) e (init-IsSettled r k)) [
    | inl (_, all_held, _) ↦ all_held
    | inr (failed, _) ↦ absurd (grind (arith, failed))
  ]

  -- On a converter that does what its data sheet says, its registers holding the results of the last
  -- conversion that is done, where conversions are done before the next interrupt, and where loading
  -- returns 0: after any interrupts, at which the inputs had any values, a read hands to the user, for
  -- each of the eleven channels, the average, rounded down, of the lowest ten bits of the channel's inputs
  -- at the last 16384 interrupts, or, where its conversion takes longer than the ten rounds that the
  -- interrupt waits, at the 16384 before the last, its register's value after loading standing for the
  -- input before the first. Those before the first sample count 0. Nothing faults on the way, and the
  -- read returns 0 if its copy succeeds, else -EFAULT.
  pub device-averages :
      (k : Answers) (s : State) (held : Held) (copy_to_user : List ℕ → Bool) (bufsize : ℕ)
      (ins : List (ℕ → ℕ))
      → at91adc_init r k ≡ some (val 0, held)
      → (d0 d : Device r v) × (boot r v k s ≡ some d0)
        × (serve_all r v ins d0 ≡ some d)
        × (at91adc_read copy_to_user bufsize d.adc ≡ (
            let sampled = seen takes (λ c. ioread32 (adc_chr c) d0.converter) ins in
            let values = map (λ c. average c sampled) channels in
            some (if copy_to_user values then err efault else val 0, values)))
  unfolding boot
  device-averages k s held copy bufsize ins e =
      let s0 = replay r v (reverse (adc_setup r)) s in
      let first : ℕ → ℕ = λ c. ioread32 (adc_chr c) s0 in
      let (a, run, result) = read-averages copy bufsize (seen takes first ins) in
      let on = set_up-AreOn r v h s in
      let (s1, served, _, _) = serve_all-after first ins s0 a on (same-Agree first channels) run in
      (
        record { adc = cleared; converter = s0 },
        record { adc = a; converter = s1 },
        rw (e, loaded-once k held e) refl,
        served,
        result,
      )
