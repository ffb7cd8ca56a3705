-- ===== src/Adc/Device/Chip.antt =====
-- One converter that does what its data sheet says, for tests of at91adc/at91adc.c.
use at91_sam9x25_drivers.Prelude.{
  ℕ, ◌≡◌, refl, Bool, true, false, some, ◌-◌, ◌/◌, ◌+◌, ◌*◌, ◌^◌, arith, ◌==◌, ◌||◌, ◌&&◌,
  if◌then◌else◌, ==_self, zero, suc, leb, ◌<◌, ◌≤◌, ◌∙◌, if_true, if_false, Bool-cases, inl, inr,
}
use at91_sam9x25_drivers.Kernel.{Ret, val}
use at91_sam9x25_drivers.Adc.Registers.{Registers, Access, mux, iowrite32, has_bit}
use at91_sam9x25_drivers.Adc.Converter.{Converter, IsSam9x5, pin_of, converting}
use at91_sam9x25_drivers.Adc.Load.{Answers, at91adc_init, start_adc, start_timer, install_irq}
use at91_sam9x25_drivers.Adc.Load.Settles.{loaded}
use at91_sam9x25_drivers.Adc.Registers.{perform}

abbrev pub answers : Ret → Answers
answers irq = record {
  misc_register = val 0;
  kmalloc = λ _. true;
  map_adc = true;
  map_tc1 = true;
  request_irq = irq;
}

-- The numbers of the headers, as far as a test needs them.
abbrev pub numbers : Registers
numbers = record {
  adc_cr = 0;
  adc_mr = 4;
  adc_cher = 16;
  adc_swrst = 1;
  adc_start = 2;
  adc_sleep = 32;
  adc_trgen = 1;
  adc_ch = λ c. 2 ^ c;
  adc_chr = λ c. 48 + 4 * c;
  adc_shtim = λ n. n * 2 ^ 24;
  adc_startup = λ n. n * 2 ^ 16;
  adc_prescal = λ n. n * 2 ^ 8;
  tc_rc = 28;
  tc_cmr = 4;
  tc_ier = 36;
  tc_ccr = 0;
  tc_wave = 2 ^ 15;
  tc_wavesel_up_auto = 2 * 2 ^ 13;
  tc_cpcs = 2 ^ 4;
  tc_swtrg = 4;
  tc_clken = 1;
}

-- For how many rounds a conversion of each channel takes: those from 4 on are not done in ten.
abbrev pub rounds : ℕ → ℕ
rounds c = 4 * c

-- The channels that are enabled and that have their pin, the inputs, the results of the conversion
-- before, and those of the conversion that was started `since` rounds ago.
pub record Chip : Type 0 where
  pub on : ℕ → Bool
  pub wired : ℕ → Bool
  pub inputs : ℕ → ℕ
  pub results : ℕ → ℕ
  pub pending : ℕ → ℕ
  pub since : ℕ

-- The register of a channel.
abbrev pub reading : ℕ → Chip → ℕ
reading c s = if leb (rounds c) s.since then s.pending c else s.results c

-- A write of the control register: a reset, or a start.
unfoldable pub control : ℕ → Chip → Chip
control m s =
    if m == 1
    then record s { on = λ _. false }
    else if m == 2
    then record s {
      results = λ c. reading c s;
      pending = λ c. if s.on c && s.wired c then s.inputs c else reading c s;
      since = 0;
    }
    else s

unfoldable pub access : Access → Chip → Chip
unfolding control
access (mux f p n) s = record s { wired = λ c. (f == 2 && (p == 1 && n == pin_of c)) || s.wired c }
access (iowrite32 m o) s =
    if o == 0
    then control m s
    else if o == 16
    then record s { on = λ c. has_bit c m || s.on c }
    else s

abbrev pub chip : Converter
chip = record {
  State = Chip;
  sense = λ f s. record s { inputs = f };
  do_access = access;
  cpu_relax = λ s. record s { since = s.since + 1 };
  idle = λ s. record s { results = s.pending };
  takes = rounds;
  ioread32 = λ o s. reading ((o - 48) / 4) s;
  enabled = λ c s. s.on c;
  routed = λ c s. s.wired c;
}

or-true : (b : Bool) → (b || true) ≡ true
or-true true = refl
or-true false = refl

access-wired : (c m o : ℕ) (s : Chip) → s.wired c ≡ true → (access (iowrite32 m o) s).wired c ≡ true
unfolding access
access-wired c m o s e = ground arith

index : (c : ℕ) → (48 + 4 * c - 48) / 4 ≡ c
index c = omega arith

-- The conversion that is going on.
module _ (c : ℕ) (f : ℕ → ℕ) (s : Chip) where
  abbrev going : ℕ → Chip
  going n = converting numbers chip n f s

  going-since : (n : ℕ) → (going n).since ≡ n
  unfolding access control
  going-since zero = refl
  going-since (suc n) = omega (arith, going-since n)

  going-results : (n : ℕ) → (going n).results c ≡ reading c s
  unfolding access control
  going-results zero = refl
  going-results (suc n) = going-results n

  going-pending : (n : ℕ) → s.on c ≡ true → s.wired c ≡ true → (going n).pending c ≡ f c
  unfolding access control
  going-pending zero on wired = rw (on, wired) refl
  going-pending (suc n) on wired = going-pending n on wired

  going-holds : (n : ℕ) → n < rounds c → reading c (going n) ≡ reading c s
  going-holds n lt =
      if_false {c = leb (rounds c) (going n).since} _ _ (ground (arith, going-since n, lt))
      ∙ going-results n

  going-done : (n : ℕ) → s.on c ≡ true → s.wired c ≡ true → rounds c ≤ n → reading c (going n) ≡ f c
  going-done n on wired le =
      if_true {c = leb (rounds c) (going n).since} _ _ (ground (arith, going-since n, le))
      ∙ going-pending n on wired

  going-ends : (n : ℕ) → s.on c ≡ true → s.wired c ≡ true → reading c (chip.idle (going n)) ≡ f c
  going-ends n on wired = elim (Bool-cases (leb (rounds c) (going n).since)) [
    | inl y ↦ if_true _ _ y ∙ going-pending n on wired
    | inr y ↦ if_false _ _ y ∙ going-pending n on wired
  ]

pub chip-IsSam9x5 : IsSam9x5 numbers chip
unfolding access
chip-IsSam9x5 = record {
  bit = λ c. refl;
  enables = λ c m s. refl;
  mode_keeps = λ c m s. refl;
  start_keeps = λ c s. refl;
  reset_disables = λ c s. refl;
  sense_keeps = λ c f s. refl;
  routes = λ c s lt. rw (==_self (pin_of c)) refl;
  mux_stays = λ c n s e. rw (e, or-true) refl;
  write_stays = λ c m o s e. access-wired c m o s e;
  sense_stays = λ c f s e. e;
  relax_keeps = λ c s. refl;
  relax_stays = λ c s e. e;
  idle_keeps = λ c s. refl;
  idle_stays = λ c s e. e;
  holds = λ c n f s lt. rw (index c) (going-holds c f s n lt);
  converts = λ c n f s on wired le. rw (index c) (going-done c f s n on wired le);
  ends = λ c n f s on wired. rw (index c) (going-ends c f s n on wired);
}

abbrev pub at_rest : Chip
at_rest = record {
  on = λ c. c == 5;
  wired = λ _. false;
  inputs = λ c. c;
  results = λ _. 0;
  pending = λ _. 7;
  since = 50;
}

pub loads : at91adc_init numbers (answers (val 0)) ≡ some (val 0, loaded numbers)
unfolding at91adc_init start_adc start_timer install_irq perform
loads = refl
