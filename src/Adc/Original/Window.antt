-- ===== src/Adc/Original/Window.antt =====
-- What a read of at91adc/at91adc原版.c hands out while interrupts go on.
pub mod Ahead
pub mod Behind
pub mod Grows
use at91_sam9x25_drivers.Prelude.{
  ◌>>=◌, ℕ, zero, suc, ◌+◌, ◌-◌, ◌*◌, ◌/◌, ◌%◌, ◌^◌, ◌≤◌, ◌<◌, min, ◌≡◌, refl, ap, sym, ◌∙◌, Bool,
  true, false, Option, some, List, [], ◌∷◌, ◌++◌, length, get_or, ltb, leb, if◌then◌else◌, arith,
  lt→ltb, le→leb, Bool-cases, inl, inr,
}
use native.Mathlib.Nat.{mod-eq_of_lt}
use at91_sam9x25_drivers.Kernel.{Ret, val}
use at91_sam9x25_drivers.Adc.Ring.{IsRing, bump, slot}
use at91_sam9x25_drivers.Adc.Original.{
  Interrupt, Original, Gaps, Copied, max_adcsamples, read_samples, interrupts, cleared, first_index,
  psrc, load, gap, later, also, copy_samples, at91adc_read,
}
use at91_sam9x25_drivers.Adc.Original.Window.Grows.{Ages, interrupts-Holds, history-older}
use at91_sam9x25_drivers.Adc.Original.Window.Behind.{
  Holds, history, news, behind, taken, behind_step, behind-slot, behind-lt, cleared-Holds,
  history-taken,
}
use at91_sam9x25_drivers.Adc.Original.Window.Ahead.{
  total, window, load-behind, next_index, next-behind, Reads, Reads-gap,
}

module _ (fails : ℕ → Bool) (works : (a : ℕ) → fails a ≡ false) (minor : ℕ) (le : minor ≤ 1)
    (h0 : ℕ → List ℕ) where
  -- The load of the next sample, after the interrupts before it.
  Reads-load :
      (n m : ℕ) (h : ℕ → List ℕ) (gaps : Gaps) (s : Original)
      → Reads (suc n) m minor h0 h gaps s
      → load (behind s.appidx (suc n + m)) (psrc minor s) ≡ some (get_or (h0 minor) n 0)
  Reads-load n m h gaps s r =
      let shift : suc n + m ≡ suc (n + m) = omega arith in
      rw shift (load-behind minor (n + m) s h le (omega (arith, r.few, r.left)) r.holds)
      ∙ ap some (r.older n)

  -- One round of the loop, by what each of its calls gives.
  copy_step :
      (n idx buf bufsize r r' v : ℕ) (gaps : Gaps) (s s1 s2 : Original) (ret : Ret)
      (copies : List (ℕ × ℕ))
      → ltb bufsize 2 ≡ false
      → interrupts (gap gaps) s ≡ some s1
      → load r (psrc minor s1) ≡ some v
      → next_index r ≡ r'
      → copy_samples fails minor n (idx + 1) (buf + 2) (bufsize - 2) r' (later gaps) s1
        ≡ some ((ret, copies), s2)
      → copy_samples fails minor (suc n) idx buf bufsize r gaps s
        ≡ some ((ret, (buf, v) ∷ copies), s2)
  unfolding copy_samples next_index
  copy_step n idx buf bufsize r r' v gaps s s1 s2 ret copies room runs loads next rest =
      rw (room, copy_samples) (rw runs (rw loads (rw (works buf) (rw next (rw rest refl)))))

  copy-window :
      (n m idx buf bufsize : ℕ) (h : ℕ → List ℕ) (gaps : Gaps) (s : Original)
      → Reads n m minor h0 h gaps s
      → (s' : Original) × (copy_samples fails minor n idx buf bufsize
            (behind s.appidx (n + m))
            gaps
            s
          ≡ some (
            (
              val ((idx + length (window n buf bufsize (h0 minor))) * 2),
              window n buf bufsize (h0 minor),
            ),
            s',
          ))
  unfolding copy_samples
  copy-window zero m idx buf bufsize h gaps s r =
      let none : idx + 0 ≡ idx = omega arith in (s, rw none refl)
  copy-window (suc n) m idx buf bufsize h gaps s r = elim (Bool-cases (ltb bufsize 2)) [
    | inl full ↦ let none : idx + 0 ≡ idx = omega arith in (s, rw (full, none, copy_samples) refl)
    | inr room ↦
        let (s1, m1, h1, runs, r1, moved) = Reads-gap (suc n) m minor h0 h gaps s r in
        let left : Reads n m1 minor h0 h1 (later gaps) s1 = record {
          holds = r1.holds;
          older = r1.older;
          few = r1.few;
          left = omega (arith, r1.left);
        } in
        let (s2, rest) =
          copy-window n m1 (idx + 1) (buf + 2) (bufsize - 2) h1 (later gaps) s1 left in
        let shift : suc n + m1 ≡ suc (n + m1) = omega arith in
        let v = get_or (h0 minor) n 0 in
        let copies = window n (buf + 2) (bufsize - 2) (h0 minor) in
        let more : idx + 1 + length copies ≡ idx + suc (length copies) = omega arith in
        (
          s2,
          copy_step n idx buf bufsize (behind s.appidx (suc n + m)) (behind s1.appidx (n + m1)) v
                gaps s s1 s2 _ _ room runs
                (ap (λ r. load r (psrc minor s1)) (sym moved)
                  ∙ Reads-load n m1 h1 (later gaps) s1 r1)
                (ap next_index (sym moved ∙ ap (behind s1.appidx) shift)
                  ∙ next-behind s1.appidx (n + m1) r1.holds.ring0.inside
                      (omega (arith, r1.few, r1.left)))
                rest
              ∙ rw room (ap (λ c. some ((val (c * 2), (buf, v) ∷ copies), s2)) more),
        )
  ]

length-window :
    (n buf bufsize : ℕ) (h : List ℕ) → length (window n buf bufsize h) ≡ min n (bufsize / 2)
length-window zero buf bufsize h = omega arith
length-window (suc n) buf bufsize h = ground (arith, length-window n (buf + 2) (bufsize - 2) h)

get_or-window :
    (n buf bufsize j : ℕ) (h : List ℕ)
    → j < n
    → j < bufsize / 2
    → get_or (window n buf bufsize h) j (0, 0) ≡ (buf + 2 * j, get_or h (n - 1 - j) 0)
get_or-window zero buf bufsize j h lt fits = absurd (omega arith)
get_or-window (suc n) buf bufsize zero h lt fits = ground arith
get_or-window (suc n) buf bufsize (suc j) h lt fits =
    ground (arith, get_or-window n (buf + 2) (bufsize - 2) j h)

first_index-behind : (at : ℕ) → at < max_adcsamples → first_index at ≡ behind at (read_samples + 0)
first_index-behind at lt = ground arith

-- After loading and any interrupts, a read of channel 0 or 1 with working user memory copies the
-- last 200 samples of the channel, which are one for every fifth interrupt, the oldest first and
-- samples before the first being 0, to successive half-words of the buffer, as many as fit; it
-- returns the number of bytes. This holds although interrupts go on during the read, if
-- they are at most 4000.
pub read-window :
    (fails : ℕ → Bool) (minor buf bufsize : ℕ) (is : List Interrupt) (gaps : Gaps)
    → ((a : ℕ) → fails a ≡ false)
    → minor ≤ 1
    → total gaps ≤ 4000
    → let count = min read_samples (bufsize / 2) in
      (s s' : Original) × (copies : List (ℕ × ℕ)) × (interrupts is cleared ≡ some s)
      × (at91adc_read fails minor buf bufsize gaps s ≡ some ((val (count * 2), copies), s'))
      × (length copies ≡ count)
      × ((j : ℕ)
          → j < count
          → get_or copies j (0, 0) ≡ (buf + 2 * j, get_or (taken minor is []) (199 - j) 0))
unfolding at91adc_read cleared
read-window fails minor buf bufsize is gaps works le few =
    let h = history 0 is (λ _. []) in
    let (s, runs, holds, ages) = interrupts-Holds is cleared (λ _. []) cleared-Holds in
    let started : Reads read_samples 0 minor h h gaps s = record {
      holds = holds;
      older = λ j. let none : j + 0 ≡ j = omega arith in ap (λ k. get_or (h minor) k 0) none;
      few = omega (arith, holds.count);
      left = omega arith;
    } in
    let (s', copied) =
      copy-window fails works minor le h read_samples 0 0 buf bufsize h gaps s started in
    let copies = window read_samples buf bufsize (h minor) in
    let size : length copies ≡ min read_samples (bufsize / 2) =
      length-window read_samples buf bufsize (h minor) in
    let sized : 0 + length copies ≡ min read_samples (bufsize / 2) = omega (arith, size) in
    (
      s,
      s',
      copies,
      runs,
      rw (le→leb minor 1 le) (
          ap (λ r. copy_samples fails minor read_samples 0 buf bufsize r gaps s)
            (first_index-behind s.appidx holds.ring0.inside)
          ∙ copied
          ∙ ap (λ c. some ((val (c * 2), copies), s')) sized),
      size,
      λ j lt.
          get_or-window read_samples buf bufsize j (h minor) (omega arith) (omega arith)
          ∙ ap (λ l. (buf + 2 * j, get_or l (199 - j) 0)) (history-taken minor is (λ _. [])),
    )
