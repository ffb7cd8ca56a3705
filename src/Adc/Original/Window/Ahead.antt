-- ===== src/Adc/Original/Window/Ahead.antt =====
-- What the read of at91adc/at91adc原版.c still has ahead of it: the samples to copy, and the interrupts.
use at91_sam9x25_drivers.Prelude.{
  ℕ, zero, suc, ◌+◌, ◌-◌, ◌*◌, ◌%◌, ◌^◌, ◌≤◌, ◌<◌, ◌≡◌, refl, ap, ◌∙◌, some, List, [], ◌∷◌, length,
  get_or, ltb, leb, if◌then◌else◌, arith, lt→ltb,
}
use at91_sam9x25_drivers.Adc.Ring.{IsRing}
use at91_sam9x25_drivers.Adc.Original.{
  Original, Gaps, max_adcsamples, read_samples, interrupts, psrc, load, gap, later,
}
use at91_sam9x25_drivers.Adc.Original.Window.Grows.{interrupts-Holds, history-older}
use at91_sam9x25_drivers.Adc.Original.Window.Behind.{
  Holds, history, news, behind, behind_step, behind-slot, behind-lt,
}

abbrev pub total : Gaps → ℕ
total [] = 0
total (is ∷ rest) = length is + total rest

total_split : (gaps : Gaps) → total gaps ≡ length (gap gaps) + total (later gaps)
total_split [] = refl
total_split (is ∷ rest) = refl

-- The `n` samples from the n-th newest on, each with its address, as far as there is room.
abbrev pub window : (n buf bufsize : ℕ) → List ℕ → List (ℕ × ℕ)
window zero buf bufsize h = []
window (suc n) buf bufsize h =
    let rest = window n (buf + 2) (bufsize - 2) h in
    if ltb bufsize 2 then [] else (buf, get_or h n 0) ∷ rest

psrc-IsRing :
    (minor : ℕ) (s : Original) (h : ℕ → List ℕ)
    → minor ≤ 1
    → Holds s h
    → IsRing max_adcsamples s.appidx (psrc minor s) (h minor)
psrc-IsRing zero s h le r = r.ring0
psrc-IsRing (suc zero) s h le r = r.ring1
psrc-IsRing (suc (suc m)) s h le r = absurd (omega arith)

-- A load at the place of the k-th newest sample gives it.
pub load-behind :
    (minor k : ℕ) (s : Original) (h : ℕ → List ℕ)
    → minor ≤ 1
    → k < max_adcsamples
    → Holds s h
    → load (behind s.appidx (suc k)) (psrc minor s) ≡ some (get_or (h minor) k 0)
unfolding load
load-behind minor k s h le lt r =
    let ring = psrc-IsRing minor s h le r in
    rw
      (
        lt→ltb (behind s.appidx (suc k)) (length (psrc minor s))
            (omega (arith, ring.size, behind-lt s.appidx (suc k) ring.inside (omega arith))),
        behind-slot s.appidx k ring.inside lt,
        ring.cells k lt,
      )
      refl

unfoldable pub next_index : ℕ → ℕ
next_index r = let next = (r + 1) % 2 ^ 16 in if leb max_adcsamples next then 0 else next

pub next-behind :
    (at q : ℕ)
    → at < max_adcsamples
    → q < max_adcsamples
    → next_index (behind at (suc q)) ≡ behind at q
unfolding next_index
next-behind at q lt lt' = ground (arith, behind_step at q lt lt')

-- A read in progress at driver `s`, with `n` samples left to copy: the histories `h` are `m` samples
-- longer than at the latch, where they were `h0`, and the interrupts to come are few enough.
pub record Reads (n m minor : ℕ) (h0 h : ℕ → List ℕ) (gaps : Gaps) (s : Original) : Type 0 where
  pub holds : Holds s h
  pub older : (j : ℕ) → get_or (h minor) (j + m) 0 ≡ get_or (h0 minor) j 0
  pub few : 5 * m + s.timecount + total gaps ≤ 4004
  pub left : n ≤ read_samples

-- What interrupts before a load leave of it.
pub Reads-gap :
    (n m minor : ℕ) (h0 h : ℕ → List ℕ) (gaps : Gaps) (s : Original)
    → Reads n m minor h0 h gaps s
    → (s' : Original) × (m' : ℕ) × (h' : ℕ → List ℕ) × (interrupts (gap gaps) s ≡ some s')
      × Reads n m' minor h0 h' (later gaps) s'
      × (behind s'.appidx (n + m') ≡ behind s.appidx (n + m))
Reads-gap n m minor h0 h gaps s r =
    let t = s.timecount in
    let (s', runs, holds, ages) = interrupts-Holds (gap gaps) s h r.holds in
    let d = news t (gap gaps) in
    (
      s',
      m + d,
      history t (gap gaps) h,
      runs,
      record {
        holds = holds;
        older = λ j.
            let assoc : j + (m + d) ≡ j + m + d = omega arith in
            ap (λ k. get_or (history t (gap gaps) h minor) k 0) assoc
            ∙ history-older minor t (j + m) (gap gaps) h
            ∙ r.older j;
        few = omega (arith, ages.clock, total_split gaps, r.few);
        left = r.left;
      },
      (let assoc : n + (m + d) ≡ n + m + d = omega arith in
          ap (behind s'.appidx) assoc
          ∙ ages.place (n + m) (omega (arith, ages.clock, total_split gaps, r.few, r.left))),
    )
