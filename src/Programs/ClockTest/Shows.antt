-- ===== src/Programs/ClockTest/Shows.antt =====
-- What RTC_test of hwtest/hwtest.c and at91rtc/rtc_demo.c show of a clock that goes.
use at91_sam9x25_drivers.Prelude.{
  ℕ, zero, suc, ◌+◌, ◌*◌, ◌/◌, ◌%◌, ◌<◌, ◌≡◌, refl, ap, ◌∙◌, true, false, some, List, [], ◌∷◌,
  length, arith,
}
use at91_sam9x25_drivers.Programs.ClockTest.{
  Time, Clock, closed, rtc_tm, set_and, show_times, rtc_test, rtc_demo,
}

-- The year, month and day, and the second of the day.
abbrev pub date : Time → ℕ × ℕ × ℕ
date t = (t.tm_year, t.tm_mon, t.tm_mday)

abbrev pub second : Time → ℕ
second t = t.tm_hour * 3600 + t.tm_min * 60 + t.tm_sec

-- A time of the clock's range, on a day that every month has.
abbrev pub IsProper : Time → Type 0
IsProper t =
    (t.tm_year < 200)
    × (t.tm_mon < 12)
    × (0 < t.tm_mday)
    × (t.tm_mday < 29)
    × (t.tm_hour < 24)
    × (t.tm_min < 60)
    × (t.tm_sec < 60)

-- A clock that can always be read, takes a proper time that it is set to, and goes on by a second for each
-- second of sleep; only as far as the end of a day. The day of the week is not looked at.
pub record IsGoing (c : Clock) : Type 0 where
  pub day : c.World → ℕ × ℕ × ℕ
  pub now : c.World → ℕ
  pub takes :
      (t : Time) (w : c.World)
      → IsProper t
      → ((c.set_time t w).0 ≡ false)
        × (day (c.set_time t w).1 ≡ date t)
        × (now (c.set_time t w).1 ≡ second t)
  pub goes :
      (n : ℕ) (w : c.World)
      → now w + n < 86400
      → (day (c.sleep n w) ≡ day w) × (now (c.sleep n w) ≡ now w + n)
  pub reads :
      (w : c.World)
      → (t : Time) × (c.rd_time w ≡ some t)
        × (date t ≡ day w)
        × (second t ≡ now w)
        × (t.tm_min < 60)
        × (t.tm_sec < 60)

-- The reading of the given seconds after 10:10 on the day that is set.
abbrev pub IsAt : (s : ℕ) → Time → Type 0
IsAt s t =
    (t.tm_year ≡ 112)
    × (t.tm_mon ≡ 2)
    × (t.tm_mday ≡ 12)
    × (t.tm_hour ≡ 10)
    × (t.tm_min ≡ 10 + s / 60)
    × (t.tm_sec ≡ s % 60)

-- Readings at every fifth second.
abbrev pub AreAt : (s : ℕ) → List Time → Type 0
AreAt s [] = Unit
AreAt s (t ∷ ts) = IsAt (s + 5) t × AreAt (s + 5) ts

second-IsAt :
    (s : ℕ) (t : Time)
    → s < 3000
    → date t ≡ date rtc_tm
    → second t ≡ 36600 + s
    → t.tm_min < 60
    → t.tm_sec < 60
    → IsAt s t
second-IsAt s t lt d e m m' =
    (ap (λ x. x.0) d, ap (λ x. x.1) d, ap (λ x. x.2) d, omega arith, omega arith, omega arith)

module _ (c : Clock) (h : IsGoing c) where
  open c use {World, set_time, rd_time, sleep}

  show_times-AreAt :
      (n s : ℕ) (w : World)
      → s + 5 * n < 3000
      → h.day w ≡ date rtc_tm
      → h.now w ≡ 36600 + s
      → (ts : List Time) × (show_times c n w ≡ (ts, closed)) × (length ts ≡ n) × AreAt s ts
  unfolding show_times
  show_times-AreAt zero s w lt d e = ([], refl, refl, tt)
  show_times-AreAt (suc n) s w lt d e =
      let (d', e') = h.goes 5 w (omega arith) in
      let (t, r, td, te, m, m') = h.reads (sleep 5 w) in
      let (ts, rest, size, at) =
        show_times-AreAt n (s + 5) (sleep 5 w) (omega arith) (d' ∙ d) (omega arith) in
      (
        t ∷ ts,
        rw (r, rest) refl,
        ap suc size,
        (second-IsAt (s + 5) t (omega arith) (td ∙ d' ∙ d) (omega arith) m m', at),
      )

  -- The time is set, and `n` readings follow.
  set_and-AreAt :
      (n : ℕ) (w : World)
      → 10 + 5 * n < 3000
      → (ts : List Time) × (set_and c (show_times c n) w ≡ (ts, closed))
        × (length ts ≡ n)
        × AreAt 10 ts
  set_and-AreAt n w lt =
      let (taken, d, e) = h.takes rtc_tm w (omega arith) in
      let (ts, run, size, at) = show_times-AreAt n 10 (set_time rtc_tm w).1 lt d e in
      (ts, rw (taken, run) refl, size, at)

  -- On a clock that goes, the test sets 10:10:10 on the twelfth of March 2012 and shows ten readings,
  -- the first five seconds later and each five seconds after the one before, and closes the device;
  -- the demo shows the reading it finds, sets the same time, shows the reading five seconds later and
  -- closes the device.
  pub rtc_test-shows :
      (w : World)
      → ((ts : List Time) × (rtc_test c true w ≡ (ts, closed)) × (length ts ≡ 10) × AreAt 10 ts)
        × ((found t : Time) × (rd_time w ≡ some found)
            × (rtc_demo c true w ≡ (found ∷ t ∷ [], closed))
            × IsAt 15 t)
  unfolding rtc_test rtc_demo
  rtc_test-shows w =
      let (found, r, _, _, _, _) = h.reads w in
      (set_and-AreAt 10 w (omega arith), demo found r (set_and-AreAt 1 w (omega arith)))
    where
      demo :
          (found : Time)
          → rd_time w ≡ some found
          → ((ts : List Time) × (set_and c (show_times c 1) w ≡ (ts, closed))
              × (length ts ≡ 1)
              × AreAt 10 ts)
          → (found t : Time) × (rd_time w ≡ some found)
            × (rtc_demo c true w ≡ (found ∷ t ∷ [], closed))
            × IsAt 15 t
      demo found r (t ∷ [], run, size, (at, _)) = (found, t, r, rw (r, run) refl, at)
      demo found r ([], run, size, at) = absurd (omega arith)
      demo found r (t ∷ u ∷ ts, run, size, at) = absurd (omega arith)
