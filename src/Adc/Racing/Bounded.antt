-- ===== src/Adc/Racing/Bounded.antt =====
-- A driver of at91adc/at91adc.c whose samples are all within bounds, and the interrupts that keep it so.
use at91_sam9x25_drivers.Prelude.{
  ℕ, ◌+◌, ◌*◌, ◌%◌, ◌^◌, ◌≤◌, ◌<◌, ◌≡◌, refl, ◌∙◌, Bool, true, false, some, List, [], ◌∷◌, length,
  get_or, set, replicate, map, leb, ◌==◌, lt→ltb, if◌then◌else◌, arith, length-set, get_or-set_self,
  get_or-set_ne, ◌⊎◌, subst, Bool-cases, inl, inr, length-replicate,
}
use at91_sam9x25_drivers.Adc.{Adc, max_adcsamples, channels, sample, at91tc0_isr, cleared}
use at91_sam9x25_drivers.Adc.Store.{store}
use at91_sam9x25_drivers.Adc.Ring.{get_or-zeros}
use at91_sam9x25_drivers.Adc.Racing.{buffer, interrupts}

module _ (lo hi : ℕ → ℕ) where
  -- A full buffer of samples of channel `c` within the bounds.
  pub record IsWithin (c : ℕ) (buf : List ℕ) : Type 0 where
    pub size : length buf ≡ max_adcsamples
    pub least : (j : ℕ) → j < max_adcsamples → lo c ≤ get_or buf j 0
    pub most : (j : ℕ) → j < max_adcsamples → get_or buf j 0 ≤ hi c

  abbrev pub AreWithin : List ℕ → List (List ℕ) → Type 0
  AreWithin [] [] = Unit
  AreWithin (c ∷ cs) (b ∷ bs) = IsWithin c b × AreWithin cs bs
  AreWithin _ _ = ⊥

  -- A well-formed driver whose samples are all within the bounds of their channels.
  pub record IsBounded (s : Adc) : Type 0 where
    pub buffers : AreWithin channels s.bufs
    pub index : s.appidx < max_adcsamples

  -- So is what the converter holds at an interrupt.
  abbrev pub Holds : List ℕ → (ℕ → ℕ) → Type 0
  Holds [] chr = Unit
  Holds (c ∷ cs) chr = (lo c ≤ chr c % 1024) × (chr c % 1024 ≤ hi c) × Holds cs chr

  abbrev pub AllHold : List (ℕ → ℕ) → Type 0
  AllHold [] = Unit
  AllHold (chr ∷ chrs) = Holds channels chr × AllHold chrs

  abbrev pub AreBetween : (k : ℕ) (cs ds : List ℕ) → Type 0
  AreBetween k [] [] = Unit
  AreBetween k (c ∷ cs) (d ∷ ds) = (k * lo c ≤ d) × (d ≤ k * hi c) × AreBetween k cs ds
  AreBetween k _ _ = ⊥

  set-cell :
      (b : List ℕ) (at v j : ℕ)
      → j < length b
      → (get_or (set b at v) j 0 ≡ v) ⊎ (get_or (set b at v) j 0 ≡ get_or b j 0)
  set-cell b at v j lt = elim (Bool-cases (at == j)) [
    | inl e ↦ let same : at ≡ j = ground arith in inl (rw same (get_or-set_self b j v 0 lt))
    | inr e ↦ inr (get_or-set_ne b at j v 0 (λ same. ground arith))
  ]

  set-IsWithin :
      (c at v : ℕ) (b : List ℕ) → IsWithin c b → lo c ≤ v → v ≤ hi c → IsWithin c (set b at v)
  set-IsWithin c at v b w ge le = record {
    size = length-set b at v ∙ w.size;
    least = λ j lt. elim (set-cell b at v j (omega (arith, w.size))) [
      | inl e ↦ rw e ge
      | inr e ↦ rw e (w.least j lt)
    ];
    most = λ j lt. elim (set-cell b at v j (omega (arith, w.size))) [
      | inl e ↦ rw e le
      | inr e ↦ rw e (w.most j lt)
    ];
  }

  sample-AreWithin :
      (chr : ℕ → ℕ) (at : ℕ) (cs : List ℕ) (bs : List (List ℕ))
      → at < max_adcsamples
      → AreWithin cs bs
      → Holds cs chr
      → (bs' : List (List ℕ)) × (sample chr at cs bs ≡ some bs') × AreWithin cs bs'
  unfolding sample store
  sample-AreWithin chr at [] [] lt w h = ([], refl, tt)
  sample-AreWithin chr at [] (b ∷ bs) lt w h = absurd w
  sample-AreWithin chr at (c ∷ cs) [] lt w h = absurd w
  sample-AreWithin chr at (c ∷ cs) (b ∷ bs) lt (w, ws) (ge, le, hs) =
      let (bs', e, ws') = sample-AreWithin chr at cs bs lt ws hs in
      (
        set b at (chr c % 1024) ∷ bs',
        rw (lt→ltb at (length b) (omega (arith, w.size)), e) refl,
        (set-IsWithin c at (chr c % 1024) b w ge le, ws'),
      )

  isr-IsBounded :
      (chr : ℕ → ℕ) (s : Adc)
      → IsBounded s
      → Holds channels chr
      → (s' : Adc) × (at91tc0_isr chr s ≡ some s') × IsBounded s'
  unfolding at91tc0_isr
  isr-IsBounded chr s b h =
      let (bs', e, ws) = sample-AreWithin chr s.appidx channels s.bufs b.index b.buffers h in
      (
        record {
          bufs = bs';
          appidx =
              let next = (s.appidx + 1) % 2 ^ 16 in if leb max_adcsamples next then 0 else next;
        },
        rw e refl,
        record { buffers = ws; index = ground arith },
      )

  pub interrupts-IsBounded :
      (chrs : List (ℕ → ℕ)) (s : Adc)
      → IsBounded s
      → AllHold chrs
      → (s' : Adc) × (interrupts chrs s ≡ some s') × IsBounded s'
  unfolding interrupts
  interrupts-IsBounded [] s b h = (s, refl, b)
  interrupts-IsBounded (chr ∷ chrs) s b (h, hs) =
      let (s1, e1, b1) = isr-IsBounded chr s b h in
      let (s2, e2, b2) = interrupts-IsBounded chrs s1 b1 hs in (s2, rw e1 e2, b2)

  -- Each of the channels `cs` has a buffer.
  abbrev has : ℕ → List ℕ → Bool
  has c [] = false
  has c (x ∷ xs) = let rest = has c xs in if c == x then true else rest

  abbrev pub AllHave : List ℕ → Type 0
  AllHave [] = Unit
  AllHave (c ∷ cs) = (has c channels ≡ true) × AllHave cs

  pub buffer-IsWithin :
      (c : ℕ) (cs : List ℕ) (bs : List (List ℕ))
      → AreWithin cs bs
      → has c cs ≡ true
      → IsWithin c (buffer c cs bs)
  buffer-IsWithin c [] [] w h = cc
  buffer-IsWithin c [] (b ∷ bs) w h = absurd w
  buffer-IsWithin c (x ∷ cs) [] w h = absurd w
  buffer-IsWithin c (x ∷ cs) (b ∷ bs) (w, ws) h = elim (Bool-cases (c == x)) [
    | inl e ↦ let same : x ≡ c = ground arith in rw e (subst (λ y. IsWithin y b) same w)
    | inr e ↦ rw e (buffer-IsWithin c cs bs ws (rw e at h))
  ]

pub cleared-IsBounded : (hi : ℕ → ℕ) → IsBounded (λ _. 0) hi cleared
unfolding cleared
cleared-IsBounded hi = record { buffers = zeros channels; index = omega arith }
  where
    zeros : (cs : List ℕ) → AreWithin (λ _. 0) hi cs (map (λ _. replicate max_adcsamples 0) cs)
    zeros [] = tt
    zeros (c ∷ cs) = (
      record {
        size = length-replicate {A = ℕ} max_adcsamples 0;
        least = λ j lt. omega arith;
        most = λ j lt. omega (arith, get_or-zeros max_adcsamples j);
      },
      zeros cs,
    )
