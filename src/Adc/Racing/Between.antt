-- ===== src/Adc/Racing/Between.antt =====
-- What a read of at91adc/at91adc.c gives while interrupts arrive.
use at91_sam9x25_drivers.Prelude.{
  ℕ, zero, suc, ◌+◌, ◌*◌, ◌%◌, ◌^◌, ◌≤◌, ◌<◌, ◌≡◌, refl, Bool, some, List, [], ◌∷◌, length, get_or,
  map, lt→ltb, if◌then◌else◌, arith, mul_mono, subst,
}
use native.Mathlib.Nat.{mod-eq_of_lt}
use at91_sam9x25_drivers.Kernel.{val, err, efault}
use at91_sam9x25_drivers.Adc.{Adc, max_adcsamples, channels, scale}
use at91_sam9x25_drivers.Adc.Racing.{buffer, load, During, add_row, add_rows, at91adc_read}
use at91_sam9x25_drivers.Adc.Racing.Bounded.{
  IsBounded, AllHold, AreBetween, interrupts-IsBounded, AllHave, buffer-IsWithin,
}

module _ (lo hi : ℕ → ℕ) where
  -- One round adds to each sum a sample of its channel.
  row-AreBetween :
      (during : During) (j : ℕ) (cs ds : List ℕ) (s : Adc)
      → j < max_adcsamples
      → ((c : ℕ) → hi c ≤ 1023)
      → ((c : ℕ) → AllHold lo hi (during j c))
      → AllHave lo hi cs
      → AreBetween lo hi j cs ds
      → IsBounded lo hi s
      → (ds' : List ℕ) × (s' : Adc) × (add_row during j cs ds s ≡ some (ds', s'))
        × AreBetween lo hi (j + 1) cs ds'
        × IsBounded lo hi s'
  unfolding add_row load
  row-AreBetween during j [] [] s lt ten_bits holds have d b = ([], s, refl, tt, b)
  row-AreBetween during j [] (x ∷ ds) s lt ten_bits holds have d b = absurd d
  row-AreBetween during j (c ∷ cs) [] s lt ten_bits holds have d b = absurd d
  row-AreBetween during j (c ∷ cs) (x ∷ ds) s lt ten_bits holds (has_c, have) (ge, le, d) b =
      let (s1, e1, b1) = interrupts-IsBounded lo hi (during j c) s b (holds c) in
      let w = buffer-IsWithin lo hi c channels s1.bufs b1.buffers has_c in
      let v = get_or (buffer c channels s1.bufs) j 0 in
      let (ds', s2, e2, d2, b2) = row-AreBetween during j cs ds s1 lt ten_bits holds have d b1 in
      let small : j * hi c ≤ 16383 * hi c = mul_mono j 16383 (hi c) (omega arith) in
      let no_wrap : (x + v) % 2 ^ 32 ≡ x + v =
        mod-eq_of_lt (omega (arith, small, ten_bits c, w.most j lt)) in
      (
        (x + v) % 2 ^ 32 ∷ ds',
        s2,
        rw (e1, lt→ltb j (length (buffer c channels s1.bufs)) (omega (arith, w.size)), e2) refl,
        rw no_wrap (omega (arith, w.least j lt), omega (arith, w.most j lt), d2),
        b2,
      )

  rows-AreBetween :
      (during : During) (n j : ℕ) (ds : List ℕ) (s : Adc)
      → j + n ≡ max_adcsamples
      → ((c : ℕ) → hi c ≤ 1023)
      → ((i c : ℕ) → AllHold lo hi (during i c))
      → AreBetween lo hi j channels ds
      → IsBounded lo hi s
      → (ds' : List ℕ) × (s' : Adc) × (add_rows during n j ds s ≡ some (ds', s'))
        × AreBetween lo hi (j + n) channels ds'
        × IsBounded lo hi s'
  unfolding add_rows
  rows-AreBetween during zero j ds s all ten_bits holds d b =
      let none_left : j ≡ j + 0 = omega arith in
      (ds, s, refl, subst (λ m. AreBetween lo hi m channels ds) none_left d, b)
  rows-AreBetween during (suc n) j ds s all ten_bits holds d b =
      let (ds1, s1, e1, d1, b1) =
        row-AreBetween during j channels ds s (omega arith) ten_bits (holds j) all_have d b in
      let (ds2, s2, e2, d2, b2) =
        rows-AreBetween during n (j + 1) ds1 s1 (omega arith) ten_bits holds d1 b1 in
      let size : j + 1 + n ≡ j + suc n = omega arith in
      (ds2, s2, rw e1 e2, subst (λ m. AreBetween lo hi m channels ds2) size d2, b2)
    where
      all_have : AllHave lo hi channels
      all_have =
          (refl, (refl, (refl, (refl, (refl, (refl, (refl, (refl, (refl, (refl, (refl, tt)))))))))))

  -- The values that are copied to the user.
  abbrev pub InRange : (cs values : List ℕ) → Type 0
  InRange [] [] = Unit
  InRange (c ∷ cs) (v ∷ vs) = (lo c ≤ v) × (v ≤ hi c) × InRange cs vs
  InRange _ _ = ⊥

  scale-InRange :
      (cs ds : List ℕ)
      → ((c : ℕ) → hi c ≤ 1023)
      → AreBetween lo hi max_adcsamples cs ds
      → InRange cs (map scale ds)
  scale-InRange [] [] ten_bits d = tt
  scale-InRange [] (x ∷ ds) ten_bits d = absurd d
  scale-InRange (c ∷ cs) [] ten_bits d = absurd d
  scale-InRange (c ∷ cs) (x ∷ ds) ten_bits (ge, le, d) =
      (omega (arith, ten_bits c), omega (arith, ten_bits c), scale-InRange cs ds ten_bits d)

  none_yet : (cs : List ℕ) → AreBetween lo hi 0 cs (map (λ _. 0) cs)
  none_yet [] = tt
  none_yet (c ∷ cs) = (omega arith, omega arith, none_yet cs)

  -- A read during which interrupts arrive, any number before any load, still takes no sample from
  -- outside a buffer, and each value that it gives lies between the bounds of its channel, if all
  -- samples in the buffers and those to come do; the buffers stay within the bounds.
  pub read-InRange :
      (during : During) (copy_to_user : List ℕ → Bool) (bufsize : ℕ) (s : Adc)
      → ((c : ℕ) → hi c ≤ 1023)
      → ((j c : ℕ) → AllHold lo hi (during j c))
      → IsBounded lo hi s
      → (values : List ℕ) × (s' : Adc) × (at91adc_read during copy_to_user bufsize s
          ≡ some ((if copy_to_user values then err efault else val 0, values), s'))
        × InRange channels values
        × IsBounded lo hi s'
  unfolding at91adc_read
  read-InRange during copy bufsize s ten_bits holds b =
      let (ds, s', e, d, b') =
        rows-AreBetween during max_adcsamples 0 (map (λ _. 0) channels) s (omega arith) ten_bits
          holds (none_yet channels) b in
      (map scale ds, s', rw e refl, scale-InRange channels ds ten_bits d, b')

-- The buffers as loading leaves them.
