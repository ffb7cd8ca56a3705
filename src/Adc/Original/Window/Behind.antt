-- ===== src/Adc/Original/Window/Behind.antt =====
-- The samples that the interrupts of at91adc/at91adc原版.c have taken, and where a sample lies in a
-- ring buffer, counted back from the index.
use at91_sam9x25_drivers.Prelude.{
  ℕ, zero, suc, ◌+◌, ◌-◌, ◌%◌, ◌^◌, ◌<◌, ◌≡◌, refl, some, List, [], ◌∷◌, leb, if◌then◌else◌, arith,
  Bool-cases, inl, inr,
}
use at91_sam9x25_drivers.Adc.Ring.{IsRing, bump, slot, cleared-IsRing}
use at91_sam9x25_drivers.Adc.Original.{
  Interrupt, Original, max_adcsamples, sample_interval_ms, wait, cleared,
}

-- The samples of each channel, the newest first, after one more interrupt and after some.
abbrev pub grow : (timecount : ℕ) → Interrupt → (ℕ → List ℕ) → ℕ → List ℕ
grow timecount i h c =
    if leb sample_interval_ms (timecount + 1) then i.chr c % 2 ^ 16 ∷ h c else h c

abbrev pub history : (timecount : ℕ) → List Interrupt → (ℕ → List ℕ) → ℕ → List ℕ
history timecount [] h = h
history timecount (i ∷ is) h = history (bump sample_interval_ms timecount) is (grow timecount i h)

-- How many samples the interrupts take.
abbrev pub news : (timecount : ℕ) → List Interrupt → ℕ
news timecount [] = 0
news timecount (i ∷ is) =
    (if leb sample_interval_ms (timecount + 1) then 1 else 0)
    + news (bump sample_interval_ms timecount) is

-- The samples of channel `c`, the newest first: one at every fifth interrupt.
abbrev pub taken : (c : ℕ) → List Interrupt → List ℕ → List ℕ
taken c (i1 ∷ i2 ∷ i3 ∷ i4 ∷ i5 ∷ is) h = taken c is (i5.chr c % 2 ^ 16 ∷ h)
taken c _ h = h

pub history-taken :
    (c : ℕ) (is : List Interrupt) (h : ℕ → List ℕ) → history 0 is h c ≡ taken c is (h c)
history-taken c [] h = refl
history-taken c (i1 ∷ []) h = refl
history-taken c (i1 ∷ i2 ∷ []) h = refl
history-taken c (i1 ∷ i2 ∷ i3 ∷ []) h = refl
history-taken c (i1 ∷ i2 ∷ i3 ∷ i4 ∷ []) h = refl
history-taken c (i1 ∷ i2 ∷ i3 ∷ i4 ∷ i5 ∷ is) h = history-taken c is (λ b. i5.chr b % 2 ^ 16 ∷ h b)

-- The buffers hold the newest 1000 samples.
pub record Holds (s : Original) (h : ℕ → List ℕ) : Type 0 where
  pub ring0 : IsRing max_adcsamples s.appidx s.pbuf0 (h 0)
  pub ring1 : IsRing max_adcsamples s.appidx s.pbuf1 (h 1)
  pub count : s.timecount < sample_interval_ms

pub cleared-Holds : Holds cleared (λ _. [])
unfolding cleared
cleared-Holds = record {
  ring0 = cleared-IsRing max_adcsamples (omega arith);
  ring1 = cleared-IsRing max_adcsamples (omega arith);
  count = omega arith;
}

-- The conversion ends, and so does the loop that waits for it.
pub wait_ends :
    (fuel polls : ℕ) (i : Interrupt)
    → 0 < fuel
    → i.busy < fuel + polls
    → wait fuel polls i ≡ some tt
unfolding wait
wait_ends zero polls i pos lt = absurd (omega arith)
wait_ends (suc n) polls i pos lt = elim (Bool-cases (leb i.busy polls)) [
  | inl e ↦ rw (e, wait) refl
  | inr e ↦ rw (e, wait) (wait_ends n (polls + 1) i (ground (arith, e)) (omega arith))
]

unfoldable pub next_index : ℕ → ℕ
next_index n = if leb max_adcsamples n then 0 else n

pub wraps : (at : ℕ) → at < max_adcsamples → next_index ((at + 1) % 2 ^ 16) ≡ bump max_adcsamples at
unfolding next_index
wraps at lt = ground arith

-- The cell that was written `q` samples ago, and the oldest one where `q` is 1000.
abbrev pub behind : (at q : ℕ) → ℕ
behind at q = if leb q at then at - q else at + max_adcsamples - q

pub behind-lt : (at q : ℕ) → at < max_adcsamples → 0 < q → behind at q < max_adcsamples
behind-lt at q lt pos = ground arith

pub behind-slot :
    (at k : ℕ)
    → at < max_adcsamples
    → k < max_adcsamples
    → behind at (suc k) ≡ slot max_adcsamples at k
behind-slot at k lt lt' = ground arith

pub behind_step :
    (at q : ℕ)
    → at < max_adcsamples
    → q < max_adcsamples
    → bump max_adcsamples (behind at (suc q)) ≡ behind at q
behind_step at q lt lt' = ground arith

-- A sample leaves the older ones where they are.
pub behind-bump :
    (at q : ℕ)
    → at < max_adcsamples
    → q < max_adcsamples
    → behind (bump max_adcsamples at) (suc q) ≡ behind at q
behind-bump at q lt lt' = ground arith
