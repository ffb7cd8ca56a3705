-- ===== src/Adc/Average.antt =====
-- What at91adc/at91adc.c hands to the user after any number of interrupts.
use at91_sam9x25_drivers.Prelude.{
  ◌>>=◌, ℕ, zero, suc, ◌+◌, ◌/◌, ◌%◌, ◌^◌, ◌≤◌, ◌<◌, ◌≡◌, refl, ap, ◌∙◌, Bool, some, List, [], ◌∷◌,
  length, get_or, set, replicate, map, leb, lt→ltb, if◌then◌else◌, arith,
}
use at91_sam9x25_drivers.Kernel.{val, err, efault}
use at91_sam9x25_drivers.Adc.{
  Adc, max_adcsamples, channels, sample, at91tc0_isr, scale, averages, at91adc_read, cleared, after,
}
use at91_sam9x25_drivers.Adc.Store.{store}
use at91_sam9x25_drivers.Adc.Ring.{
  recent, recent_bound, IsRing, bump, IsRing-store, cleared-IsRing, add_up-IsRing,
}

-- The samples of channel `c` at the interrupts `chrs`.
abbrev pub samples : (c : ℕ) → List (ℕ → ℕ) → List ℕ
samples c [] = []
samples c (chr ∷ chrs) = chr c % 1024 ∷ samples c chrs

samples_bound : (c : ℕ) (chrs : List (ℕ → ℕ)) (k : ℕ) → get_or (samples c chrs) k 0 ≤ 1023
samples_bound c [] k = omega arith
samples_bound c (chr ∷ chrs) zero = omega arith
samples_bound c (chr ∷ chrs) (suc k) = samples_bound c chrs k

-- The average of the newest 16384 samples, rounded down.
pub average : (c : ℕ) → List (ℕ → ℕ) → ℕ
average c chrs = recent max_adcsamples (samples c chrs) / max_adcsamples

-- Every buffer is the ring of its channel.
abbrev pub AreRings : (at : ℕ) → List ℕ → List (List ℕ) → List (ℕ → ℕ) → Type 0
AreRings at [] [] chrs = Unit
AreRings at (c ∷ cs) (b ∷ bs) chrs =
    IsRing max_adcsamples at b (samples c chrs) × AreRings at cs bs chrs
AreRings at _ _ chrs = ⊥

sample-AreRings :
    (chr : ℕ → ℕ) (at : ℕ) (cs : List ℕ) (bs : List (List ℕ)) (chrs : List (ℕ → ℕ))
    → AreRings at cs bs chrs
    → (bs' : List (List ℕ)) × (sample chr at cs bs ≡ some bs')
      × AreRings (bump max_adcsamples at) cs bs' (chr ∷ chrs)
unfolding sample store
sample-AreRings chr at [] [] chrs r = ([], refl, tt)
sample-AreRings chr at [] (b ∷ bs) chrs r = absurd r
sample-AreRings chr at (c ∷ cs) [] chrs r = absurd r
sample-AreRings chr at (c ∷ cs) (b ∷ bs) chrs (r, rs) =
    let (bs', e, rs') = sample-AreRings chr at cs bs chrs rs in
    (
      set b at (chr c % 1024) ∷ bs',
      rw (lt→ltb at (length b) (omega (arith, r.size, r.inside)), e) refl,
      (IsRing-store max_adcsamples at (chr c % 1024) b (samples c chrs) r, rs'),
    )

cleared-AreRings : (cs : List ℕ) → AreRings 0 cs (map (λ _. replicate max_adcsamples 0) cs) []
cleared-AreRings [] = tt
cleared-AreRings (c ∷ cs) = (cleared-IsRing max_adcsamples (omega arith), cleared-AreRings cs)

next_index : ℕ → ℕ
next_index n = if leb max_adcsamples n then 0 else n

wraps : (at : ℕ) → at < max_adcsamples → next_index ((at + 1) % 2 ^ 16) ≡ bump max_adcsamples at
unfolding next_index
wraps at lt = ground arith

-- However many interrupts there were, no store has left a buffer.
pub after-AreRings :
    (chrs : List (ℕ → ℕ))
    → (s : Adc) × (after chrs ≡ some s)
      × AreRings s.appidx channels s.bufs chrs
      × (s.appidx < max_adcsamples)
unfolding after cleared at91tc0_isr next_index
after-AreRings [] = (cleared, refl, cleared-AreRings channels, omega arith)
after-AreRings (chr ∷ chrs) =
    let (s, e, r, lt) = after-AreRings chrs in
    let (bs', e', r') = sample-AreRings chr s.appidx channels s.bufs chrs r in
    (
      record { bufs = bs'; appidx = bump max_adcsamples s.appidx },
      runs s bs' e e' lt,
      r',
      ground arith,
    )
  where
    runs :
        (s : Adc) (bs' : List (List ℕ))
        → after chrs ≡ some s
        → sample chr s.appidx channels s.bufs ≡ some bs'
        → s.appidx < max_adcsamples
        → after (chr ∷ chrs) ≡ some (record { bufs = bs'; appidx = bump max_adcsamples s.appidx })
    runs s bs' e e' lt =
        ap (λ o. o >>= at91tc0_isr chr) e
        ∙ ap
            (λ o. o >>= λ bufs.
              some (record { bufs = bufs; appidx = next_index ((s.appidx + 1) % 2 ^ 16) }))
            e'
        ∙ ap (λ i. some (record { bufs = bs'; appidx = i })) (wraps s.appidx lt)

scale-average :
    (c : ℕ) (chrs : List (ℕ → ℕ)) → scale (recent max_adcsamples (samples c chrs)) ≡ average c chrs
unfolding average
scale-average c chrs =
    omega (arith, recent_bound max_adcsamples 1023 (samples c chrs) (samples_bound c chrs))

pub averages-AreRings :
    (at : ℕ) (cs : List ℕ) (bs : List (List ℕ)) (chrs : List (ℕ → ℕ))
    → AreRings at cs bs chrs
    → averages bs ≡ some (map (λ c. average c chrs) cs)
unfolding averages
averages-AreRings at [] [] chrs r = refl
averages-AreRings at [] (b ∷ bs) chrs r = absurd r
averages-AreRings at (c ∷ cs) [] chrs r = absurd r
averages-AreRings at (c ∷ cs) (b ∷ bs) chrs (r, rs) =
    ap (λ o. o >>= λ t. averages bs >>= λ rest. some (scale t ∷ rest))
      (add_up-IsRing max_adcsamples at b (samples c chrs) r (samples_bound c chrs) (omega arith))
    ∙ ap (λ o. o >>= λ rest. some (scale (recent max_adcsamples (samples c chrs)) ∷ rest))
        (averages-AreRings at cs bs chrs rs)
    ∙ ap (λ v. some (v ∷ map (λ x. average x chrs) cs)) (scale-average c chrs)

-- After loading and any number of interrupts a read takes no sample from outside a buffer, and
-- copies to the user, for each of the eleven channels, the average of its last 16384 samples,
-- rounded down, where samples before the first count 0; no sum wraps around. It returns 0 if the copy succeeds.
pub read-averages :
    (copy_to_user : List ℕ → Bool) (bufsize : ℕ) (chrs : List (ℕ → ℕ))
    → (s : Adc) × (after chrs ≡ some s)
      × (at91adc_read copy_to_user bufsize s
          ≡ some (
            if copy_to_user (map (λ c. average c chrs) channels) then err efault else val 0,
            map (λ c. average c chrs) channels,
          ))
unfolding at91adc_read
read-averages copy bufsize chrs =
    let (s, e, r, lt) = after-AreRings chrs in
    (s, e, rw (averages-AreRings s.appidx channels s.bufs chrs r) refl)

pub average_bound : (c : ℕ) (chrs : List (ℕ → ℕ)) → average c chrs ≤ 1023
unfolding average
average_bound c chrs =
    omega (arith, recent_bound max_adcsamples 1023 (samples c chrs) (samples_bound c chrs))
