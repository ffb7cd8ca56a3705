-- ===== src/Adc/Original/Window/Grows.antt =====
-- How interrupts of at91adc/at91adc原版.c add to its buffers, and where older samples stay.
use at91_sam9x25_drivers.Prelude.{
  ℕ, suc, ◌+◌, ◌*◌, ◌%◌, ◌^◌, ◌≤◌, ◌<◌, ◌≡◌, refl, ap, ◌∙◌, some, List, [], ◌∷◌, length, get_or,
  set, leb, if◌then◌else◌, arith, lt→ltb, Bool-cases, inl, inr,
}
use at91_sam9x25_drivers.Adc.Ring.{bump, IsRing-store}
use at91_sam9x25_drivers.Adc.Store.{store}
use at91_sam9x25_drivers.Adc.Original.{
  Interrupt, Original, max_adcsamples, sample_interval_ms, take_sample, at91tc0_isr, interrupts,
}
use at91_sam9x25_drivers.Adc.Original.Window.Behind.{
  grow, history, news, Holds, wait_ends, next_index, wraps, behind, behind-bump,
}

-- Interrupts age each sample by the number of new ones, and keep time.
pub record Ages (s s' : Original) (is : List Interrupt) : Type 0 where
  pub place :
      (q : ℕ)
      → q + news s.timecount is ≤ max_adcsamples
      → behind s'.appidx (q + news s.timecount is) ≡ behind s.appidx q
  pub clock : s'.timecount + sample_interval_ms * news s.timecount is ≡ s.timecount + length is

-- One more sample, or none.
abbrev due : ℕ → ℕ
due timecount = if leb sample_interval_ms (timecount + 1) then 1 else 0

grow-older :
    (c timecount j : ℕ) (i : Interrupt) (h : ℕ → List ℕ)
    → get_or (grow timecount i h c) (j + due timecount) 0 ≡ get_or (h c) j 0
grow-older c timecount j i h = elim (Bool-cases (leb sample_interval_ms (timecount + 1))) [
  | inl e ↦
      let v = i.chr c % 2 ^ 16 in
      let one : j + 1 ≡ suc j = omega arith in rw e (ap (λ k. get_or (v ∷ h c) k 0) one)
  | inr e ↦ let none : j + 0 ≡ j = omega arith in rw e (ap (λ k. get_or (h c) k 0) none)
]

pub history-older :
    (c timecount j : ℕ) (is : List Interrupt) (h : ℕ → List ℕ)
    → get_or (history timecount is h c) (j + news timecount is) 0 ≡ get_or (h c) j 0
history-older c timecount j [] h = ap (λ k. get_or (h c) k 0) (omega arith)
history-older c timecount j (i ∷ is) h =
    let d = due timecount in
    let t = bump sample_interval_ms timecount in
    let g = grow timecount i h in
    let assoc : j + (d + news t is) ≡ j + d + news t is = omega arith in
    ap (λ k. get_or (history t is g c) k 0) assoc
    ∙ history-older c t (j + d) is g
    ∙ grow-older c timecount j i h

behind-due :
    (at at1 t q : ℕ)
    → at1 ≡ (if leb sample_interval_ms (t + 1) then bump max_adcsamples at else at)
    → at < max_adcsamples
    → q + due t ≤ max_adcsamples
    → behind at1 (q + due t) ≡ behind at q
behind-due at at1 t q e lt le = elim (Bool-cases (leb sample_interval_ms (t + 1))) [
  | inl y ↦
      let moved : at1 ≡ bump max_adcsamples at = e ∙ rw y refl in
      let one : q + 1 ≡ suc q = omega arith in
      let small : q < max_adcsamples = ground (arith, y, le) in
      rw (y, moved, one) (behind-bump at q lt small)
  | inr n ↦
      let kept : at1 ≡ at = e ∙ rw n refl in
      let none : q + 0 ≡ q = omega arith in rw (n, kept, none) refl
]

step :
    (t : ℕ)
    → t < sample_interval_ms
    → bump sample_interval_ms t + sample_interval_ms * due t ≡ t + 1
step t lt = ground arith

Ages-cons :
    (i : Interrupt) (is : List Interrupt) (s s1 s2 : Original)
    → s1.timecount ≡ bump sample_interval_ms s.timecount
    → s1.appidx ≡ (
        if leb sample_interval_ms (s.timecount + 1) then bump max_adcsamples s.appidx else s.appidx)
    → s.appidx < max_adcsamples
    → s.timecount < sample_interval_ms
    → Ages s1 s2 is
    → Ages s s2 (i ∷ is)
Ages-cons i is s s1 s2 counts moves lt early a = record {
  place = λ q le.
      let d = due s.timecount in
      let n = news (bump sample_interval_ms s.timecount) is in
      let assoc : q + (d + n) ≡ q + d + n = omega arith in
      ap (behind s2.appidx) assoc
      ∙ aged q (omega arith)
      ∙ behind-due s.appidx s1.appidx s.timecount q moves lt (omega arith);
  clock = omega (arith, clocked, step s.timecount early);
}
  where
    aged :
        (q : ℕ)
        → q + due s.timecount + news (bump sample_interval_ms s.timecount) is ≤ max_adcsamples
        → behind s2.appidx (q + due s.timecount + news (bump sample_interval_ms s.timecount) is)
          ≡ behind s1.appidx (q + due s.timecount)
    aged q = rw (← counts) (a.place (q + due s.timecount))

    clocked :
        s2.timecount + sample_interval_ms * news (bump sample_interval_ms s.timecount) is
        ≡ bump sample_interval_ms s.timecount + length is
    clocked = rw (← counts) a.clock

-- The driver once a sample has been taken.
sampled : Interrupt → Original → Original
sampled i s = record {
  pbuf0 = set s.pbuf0 s.appidx (i.chr 0 % 2 ^ 16);
  pbuf1 = set s.pbuf1 s.appidx (i.chr 1 % 2 ^ 16);
  appidx = bump max_adcsamples s.appidx;
  timecount = s.timecount;
}

take_sample-sampled :
    (i : Interrupt) (s : Original) (h : ℕ → List ℕ)
    → Holds s h
    → take_sample i s ≡ some (sampled i s)
unfolding take_sample store sampled next_index
take_sample-sampled i s h r =
    rw
      (
        wait_ends (i.busy + 1) 0 i (omega arith) (omega arith),
        lt→ltb s.appidx (length s.pbuf0) (omega (arith, r.ring0.size, r.ring0.inside)),
        lt→ltb s.appidx (length s.pbuf1) (omega (arith, r.ring1.size, r.ring1.inside)),
      )
      (ap
        (λ a. some (record {
          pbuf0 = set s.pbuf0 s.appidx (i.chr 0 % 2 ^ 16);
          pbuf1 = set s.pbuf1 s.appidx (i.chr 1 % 2 ^ 16);
          appidx = a;
          timecount = s.timecount;
        }))
        (wraps s.appidx r.ring0.inside))

-- An interrupt never stores outside a buffer, and counts as it should.
isr-Holds :
    (i : Interrupt) (s : Original) (h : ℕ → List ℕ)
    → Holds s h
    → (s' : Original) × (at91tc0_isr i s ≡ some s')
      × Holds s' (grow s.timecount i h)
      × (s'.timecount ≡ bump sample_interval_ms s.timecount)
      × (s'.appidx ≡ (
          if leb sample_interval_ms (s.timecount + 1)
          then bump max_adcsamples s.appidx
          else s.appidx))
unfolding at91tc0_isr sampled
isr-Holds i s h r = elim (Bool-cases (leb sample_interval_ms (s.timecount + 1))) [
  | inl due ↦
      let s0 = record s { timecount = 0 } in
      (
        sampled i s0,
        rw due (
            take_sample-sampled i s0 h
              (record { ring0 = r.ring0; ring1 = r.ring1; count = omega arith })),
        record {
          ring0 =
              rw due
                (IsRing-store max_adcsamples s.appidx (i.chr 0 % 2 ^ 16) s.pbuf0 (h 0) r.ring0);
          ring1 =
              rw due
                (IsRing-store max_adcsamples s.appidx (i.chr 1 % 2 ^ 16) s.pbuf1 (h 1) r.ring1);
          count = omega arith;
        },
        rw due refl,
        rw due refl,
      )
  | inr early ↦ (
    record s { timecount = s.timecount + 1 },
    rw early refl,
    record { ring0 = rw early r.ring0; ring1 = rw early r.ring1; count = ground (arith, early) },
    rw early refl,
    rw early refl,
  )
]

pub interrupts-Holds :
    (is : List Interrupt) (s : Original) (h : ℕ → List ℕ)
    → Holds s h
    → (s' : Original) × (interrupts is s ≡ some s')
      × Holds s' (history s.timecount is h)
      × Ages s s' is
unfolding interrupts
interrupts-Holds [] s h r =
    (s, refl, r, record { place = λ q le. ap (behind s.appidx) (omega arith); clock = omega arith })
interrupts-Holds (i ∷ is) s h r =
    let (s1, runs, r1, counts, moves) = isr-Holds i s h r in
    let (s2, rest, r2, ages) = interrupts-Holds is s1 (grow s.timecount i h) r1 in
    (
      s2,
      rw runs rest,
      rw (← counts) r2,
      Ages-cons i is s s1 s2 counts moves r.ring0.inside r.count ages,
    )
