-- ===== src/Adc/Original.antt =====
-- The driver that the converter driver was made from, at91adc/at91adc原版.c: two channels, a sample
-- at every fifth interrupt, and a read of the last 200 samples during which interrupts go on.
pub mod Window
pub mod Load
use at91_sam9x25_drivers.Prelude.{
  ◌>>=◌, ℕ, zero, suc, ◌+◌, ◌-◌, ◌*◌, ◌%◌, ◌^◌, Bool, true, false, Option, none, some, List, [],
  ◌∷◌, length, get_or, replicate, ltb, leb, ◌==◌, if◌then◌else◌,
}
use at91_sam9x25_drivers.Kernel.{Ret, val, err, efault}
use at91_sam9x25_drivers.Adc.Store.{store}

abbrev pub sample_interval_ms : ℕ
sample_interval_ms = 5

-- `1000/SAMPLE_INTERVAL_MS`
abbrev pub read_samples : ℕ
read_samples = 200

-- `5* READ_SAMPLES`
abbrev pub max_adcsamples : ℕ
max_adcsamples = 1000

-- An interrupt of the timer: how often `AT91_ADC_SR` still shows a conversion going on once it has
-- been started, and what `AT91_ADC_CHR(c)` reads then.
pub record Interrupt : Type 0 where
  pub busy : ℕ
  pub chr : ℕ → ℕ

-- The two buffers, `at91adc_appidx`, and `timecount` of the interrupt.
pub record Original : Type 0 where
  pub pbuf0 : List ℕ
  pub pbuf1 : List ℕ
  pub appidx : ℕ
  pub timecount : ℕ

-- The loop that polls for AT91_ADC_DRDY; `none` is a loop that has used up its fuel.
unfoldable pub wait : (fuel polls : ℕ) → Interrupt → Option (Unit {0})
wait zero polls i = none
wait (suc n) polls i = elim (leb i.busy polls) [ true ↦ some tt | false ↦ wait n (polls + 1) i ]

-- The part of the interrupt under `timecount >= SAMPLE_INTERVAL_MS`. The buffers and the index are
-- `unsigned short`; a store behind the end of a buffer is a fault, `none` too.
unfoldable pub take_sample : Interrupt → Original → Option Original
take_sample i s = do
  _ ← wait (i.busy + 1) 0 i
  pbuf0 ← store s.appidx (i.chr 0 % 2 ^ 16) s.pbuf0
  pbuf1 ← store s.appidx (i.chr 1 % 2 ^ 16) s.pbuf1
  let next = (s.appidx + 1) % 2 ^ 16
  some (record {
    pbuf0 = pbuf0;
    pbuf1 = pbuf1;
    appidx = if leb max_adcsamples next then 0 else next;
    timecount = s.timecount;
  })

unfoldable pub at91tc0_isr : Interrupt → Original → Option Original
at91tc0_isr i s =
    let timecount = s.timecount + 1 in
    if leb sample_interval_ms timecount
    then take_sample i (record s { timecount = 0 })
    else some (record s { timecount = timecount })

-- Interrupts one after another, the first first.
unfoldable pub interrupts : List Interrupt → Original → Option Original
interrupts [] s = some s
interrupts (i ∷ is) s = do s' ← at91tc0_isr i s; interrupts is s'

-- The driver as `at91adc_init` leaves it.
unfoldable pub cleared : Original
cleared = record {
  pbuf0 = replicate max_adcsamples 0;
  pbuf1 = replicate max_adcsamples 0;
  appidx = 0;
  timecount = 0;
}

-- The index of the oldest sample to hand out, latched from `at91adc_appidx`.
abbrev pub first_index : ℕ → ℕ
first_index appidx =
    if leb read_samples appidx
    then appidx - read_samples
    else max_adcsamples - (read_samples - appidx)

-- `*psrc`, by the minor number 0 or another one
abbrev pub psrc : (minor : ℕ) → Original → List ℕ
psrc minor s = if minor == 0 then s.pbuf0 else s.pbuf1

-- `psrc[readidx]`: a load from behind the end is a fault.
unfoldable pub load : (readidx : ℕ) → List ℕ → Option ℕ
load readidx buf = if ltb readidx (length buf) then some (get_or buf readidx 0) else none

-- What happens during a read: the interrupts before each of its loads, from the latch on.
abbrev pub Gaps : Type 0
Gaps = List (List Interrupt)

abbrev pub gap : Gaps → List Interrupt
gap [] = []
gap (is ∷ rest) = is

abbrev pub later : Gaps → Gaps
later [] = []
later (is ∷ rest) = rest

-- The result of a read, and the samples that it has copied, each with its address.
abbrev pub Copied : Type 0
Copied = Ret × List (ℕ × ℕ)

abbrev pub also : ℕ × ℕ → Copied × Original → Option (Copied × Original)
also c ((r, cs), s) = some ((r, c ∷ cs), s)

-- The loop of the read for `n` more samples; `fails` tells of which addresses `copy_to_user` fails.
unfoldable pub copy_samples :
    (fails : ℕ → Bool) (minor n idx buf bufsize readidx : ℕ)
    → Gaps
    → Original
    → Option (Copied × Original)
copy_samples fails minor zero idx buf bufsize readidx gaps s = some ((val (idx * 2), []), s)
copy_samples fails minor (suc n) idx buf bufsize readidx gaps s = elim (ltb bufsize 2) [
  | true ↦ some ((val (idx * 2), []), s)
  | false ↦ do
    s1 ← interrupts (gap gaps) s
    v ← load readidx (psrc minor s1)
    elim (fails buf) [
      | true ↦ some ((err efault, []), s1)
      | false ↦
          let next = (readidx + 1) % 2 ^ 16 in
          copy_samples fails minor n (idx + 1) (buf + 2) (bufsize - 2)
            (if leb max_adcsamples next then 0 else next) (later gaps) s1
          >>= also (buf, v)
    ]
]

-- `at91adc_read`
unfoldable pub at91adc_read :
    (fails : ℕ → Bool) (minor buf bufsize : ℕ) → Gaps → Original → Option (Copied × Original)
at91adc_read fails minor buf bufsize gaps s =
    if leb minor 1
    then copy_samples fails minor read_samples 0 buf bufsize (first_index s.appidx) gaps s
    else some ((val 0, []), s)
