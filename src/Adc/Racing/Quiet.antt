-- ===== src/Adc/Racing/Quiet.antt =====
-- A read of at91adc/at91adc.c during which no interrupt comes: adding up the samples of all channels
-- one after another, as the source does, is adding up each channel by itself, and gives the averages.
use at91_sam9x25_drivers.Prelude.{
  ◌>>=◌, ℕ, zero, suc, ◌+◌, ◌%◌, ◌^◌, ◌≤◌, ◌<◌, ◌≡◌, refl, sym, subst, ap, ap₂, ◌∙◌, Bool, true,
  not, ◌&&◌, some, List, [], ◌∷◌, length, get_or, map, lt→ltb, ◌==◌, arith, both_true, if_true,
  if◌then◌else◌,
}
use at91_sam9x25_drivers.Kernel.{val, err, efault}
use at91_sam9x25_drivers.Adc.{Adc, max_adcsamples, channels, add_up, scale, averages, after}
use at91_sam9x25_drivers.Adc.Average.{average, AreRings, after-AreRings, averages-AreRings}
use at91_sam9x25_drivers.Adc
use at91_sam9x25_drivers.Adc.Racing.{
  buffer, interrupts, load, During, add_row, add_rows, at91adc_read,
}

-- No interrupt at all.
abbrev pub quiet : During
quiet = λ _ _. []

-- Every buffer has all its samples.
abbrev AreFull : List (List ℕ) → Type 0
AreFull [] = Unit
AreFull (b ∷ bs) = (length b ≡ max_adcsamples) × AreFull bs

-- The sum of `n` samples from index `j` on, and such sums of several buffers.
total : (n j : ℕ) (b : List ℕ) (d : ℕ) → ℕ
total zero j b d = d
total (suc n) j b d = total n (j + 1) b ((d + get_or b j 0) % 2 ^ 32)

totals : (n j : ℕ) (bs : List (List ℕ)) (ds : List ℕ) → List ℕ
totals n j (b ∷ bs) (d ∷ ds) = total n j b d ∷ totals n j bs ds
totals n j _ _ = []

one_round : (j : ℕ) (bs : List (List ℕ)) (ds : List ℕ) → List ℕ
one_round j (b ∷ bs) (d ∷ ds) = (d + get_or b j 0) % 2 ^ 32 ∷ one_round j bs ds
one_round j _ _ = []

add_up-total :
    (n j : ℕ) (b : List ℕ) (d : ℕ) → j + n ≤ length b → add_up n j b d ≡ some (total n j b d)
unfolding add_up total
add_up-total zero j b d le = refl
add_up-total (suc n) j b d le =
    if_true _ _ (lt→ltb j (length b) (omega arith)) ∙ add_up-total n (j + 1) b _ (omega arith)

averages-totals :
    (bs : List (List ℕ))
    → AreFull bs
    → averages bs ≡ some (map scale (totals max_adcsamples 0 bs (map (λ _. 0) bs)))
unfolding averages totals
averages-totals [] full = refl
averages-totals (b ∷ bs) (full, fulls) =
    rw (add_up-total max_adcsamples 0 b 0 (omega arith), averages-totals bs fulls) refl

totals-one_round :
    (n j : ℕ) (bs : List (List ℕ)) (ds : List ℕ)
    → totals (suc n) j bs ds ≡ totals n (j + 1) bs (one_round j bs ds)
unfolding totals one_round total
totals-one_round n j [] ds = refl
totals-one_round n j (b ∷ bs) [] = refl
totals-one_round n j (b ∷ bs) (d ∷ ds) =
    ap (λ r. total n (j + 1) b ((d + get_or b j 0) % 2 ^ 32) ∷ r) (totals-one_round n j bs ds)

totals-none :
    (j : ℕ) (bs : List (List ℕ)) (ds : List ℕ) → length bs ≡ length ds → totals 0 j bs ds ≡ ds
unfolding totals total
totals-none j [] [] e = refl
totals-none j [] (d ∷ ds) e = absurd (omega arith)
totals-none j (b ∷ bs) [] e = absurd (omega arith)
totals-none j (b ∷ bs) (d ∷ ds) e = ap (λ r. d ∷ r) (totals-none j bs ds (omega arith))

length-one_round :
    (j : ℕ) (bs : List (List ℕ)) (ds : List ℕ)
    → length bs ≡ length ds
    → length bs ≡ length (one_round j bs ds)
unfolding one_round
length-one_round j [] [] e = refl
length-one_round j [] (d ∷ ds) e = absurd (omega arith)
length-one_round j (b ∷ bs) [] e = absurd (omega arith)
length-one_round j (b ∷ bs) (d ∷ ds) e = ap suc (length-one_round j bs ds (omega arith))

-- The buffer of each channel, channel by channel, is the list of the buffers.
module _ where
  abbrev lacks : ℕ → List ℕ → Bool
  lacks x [] = true
  lacks x (c ∷ cs) = not (c == x) && lacks x cs

  abbrev distinct : List ℕ → Bool
  distinct [] = true
  distinct (c ∷ cs) = lacks c cs && distinct cs

  skip-buffer :
      (x : ℕ) (b : List ℕ) (ds cs : List ℕ) (bs : List (List ℕ))
      → lacks x ds ≡ true
      → map (λ c. buffer c (x ∷ cs) (b ∷ bs)) ds ≡ map (λ c. buffer c cs bs) ds
  skip-buffer x b [] cs bs e = refl
  skip-buffer x b (d ∷ ds) cs bs e =
      let (other, others) = both_true (not (d == x)) (lacks x ds) e in
      ap₂ ◌∷◌ (ground (arith, other)) (skip-buffer x b ds cs bs others)

  map-buffer :
      (cs : List ℕ) (bs : List (List ℕ))
      → distinct cs ≡ true
      → length cs ≡ length bs
      → map (λ c. buffer c cs bs) cs ≡ bs
  map-buffer [] [] e size = refl
  map-buffer [] (b ∷ bs) e size = absurd (omega arith)
  map-buffer (c ∷ cs) [] e size = absurd (omega arith)
  map-buffer (c ∷ cs) (b ∷ bs) e size =
      let (apart, rest) = both_true (lacks c cs) (distinct cs) e in
      ap₂ ◌∷◌ (ground arith) (skip-buffer c b cs cs bs apart ∙ map-buffer cs bs rest (omega arith))

quiet-row :
    (s : Adc) (j : ℕ) (cs ds : List ℕ)
    → j < max_adcsamples
    → AreFull (map (λ c. buffer c channels s.bufs) cs)
    → add_row quiet j cs ds s ≡ some (one_round j (map (λ c. buffer c channels s.bufs) cs) ds, s)
unfolding add_row one_round interrupts load
quiet-row s j [] ds lt full = refl
quiet-row s j (c ∷ cs) [] lt full = refl
quiet-row s j (c ∷ cs) (d ∷ ds) lt (full, fulls) =
    rw (lt→ltb j (length (buffer c channels s.bufs)) (omega arith), quiet-row s j cs ds lt fulls)
      refl

quiet-rows :
    (s : Adc) (n j : ℕ) (ds : List ℕ)
    → j + n ≤ max_adcsamples
    → AreFull s.bufs
    → length channels ≡ length s.bufs
    → length s.bufs ≡ length ds
    → add_rows quiet n j ds s ≡ some (totals n j s.bufs ds, s)
unfolding add_rows
quiet-rows s zero j ds le full size same =
    ap (λ r. some (r, s)) (sym (totals-none j s.bufs ds same))
quiet-rows s (suc n) j ds le full size same =
    let own = map-buffer channels s.bufs refl size in
    let row = quiet-row s j channels ds (omega arith) (subst AreFull (sym own) full) in
    ap (λ o. o >>= λ r. add_rows quiet n (j + 1) r.0 r.1)
      (row ∙ ap (λ bs. some (one_round j bs ds, s)) own)
    ∙ quiet-rows s n (j + 1) (one_round j s.bufs ds) (omega arith) full size
        (length-one_round j s.bufs ds same)
    ∙ ap (λ r. some (r, s)) (sym (totals-one_round n j s.bufs ds))

-- As many zeros as there are buffers.
as_many :
    (bs : List (List ℕ)) (cs : List ℕ)
    → length bs ≡ length cs
    → map (λ _. 0) bs ≡ map {B = ℕ} (λ _. 0) cs
as_many [] [] e = refl
as_many [] (c ∷ cs) e = absurd (omega arith)
as_many (b ∷ bs) [] e = absurd (omega arith)
as_many (b ∷ bs) (c ∷ cs) e = ap (λ r. 0 ∷ r) (as_many bs cs (omega arith))

-- On eleven buffers that have all their samples, a read during which no interrupt comes gives what
-- the read gives that adds up the samples of each channel by itself, and leaves the driver as it is.
read-quiet :
    (copy_to_user : List ℕ → Bool) (bufsize : ℕ) (s : Adc)
    → length s.bufs ≡ 11
    → AreFull s.bufs
    → at91adc_read quiet copy_to_user bufsize s
      ≡ (Adc.at91adc_read copy_to_user bufsize s >>= λ r. some (r, s))
unfolding at91adc_read Adc.at91adc_read
read-quiet copy bufsize s size full =
    rw
      (
        quiet-rows s max_adcsamples 0 (map (λ _. 0) channels) (omega arith) full (sym size) size,
        averages-totals s.bufs full,
        as_many s.bufs channels size,
      )
      refl

AreRings-AreFull :
    (at : ℕ) (cs : List ℕ) (bs : List (List ℕ)) (chrs : List (ℕ → ℕ))
    → AreRings at cs bs chrs
    → (length bs ≡ length cs) × AreFull bs
AreRings-AreFull at [] [] chrs r = (refl, tt)
AreRings-AreFull at [] (b ∷ bs) chrs r = absurd r
AreRings-AreFull at (c ∷ cs) [] chrs r = absurd r
AreRings-AreFull at (c ∷ cs) (b ∷ bs) chrs (r, rs) =
    let (size, full) = AreRings-AreFull at cs bs chrs rs in (ap suc size, (r.size, full))

-- After loading and any number of interrupts, a read that adds up the samples of all channels one after
-- another, as the source does, and during which no interrupt comes, takes no sample from outside a
-- buffer and copies to the user, for each of the eleven channels, the average of its last 16384
-- samples, rounded down, where samples before the first count 0. It leaves the driver as it is and
-- returns 0 if the copy succeeds, else -EFAULT.
pub quiet-averages :
    (copy_to_user : List ℕ → Bool) (bufsize : ℕ) (chrs : List (ℕ → ℕ))
    → (s : Adc) × (after chrs ≡ some s)
      × (at91adc_read quiet copy_to_user bufsize s
          ≡ some (
            (
              if copy_to_user (map (λ c. average c chrs) channels) then err efault else val 0,
              map (λ c. average c chrs) channels,
            ),
            s,
          ))
unfolding Adc.at91adc_read
quiet-averages copy bufsize chrs =
    let (s, e, r, lt) = after-AreRings chrs in
    let (size, full) = AreRings-AreFull s.appidx channels s.bufs chrs r in
    (
      s,
      e,
      read-quiet copy bufsize s size full
          ∙ rw (averages-AreRings s.appidx channels s.bufs chrs r) refl,
    )
