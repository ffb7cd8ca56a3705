-- ===== src/Programs/ClockTest/Tests.antt =====
-- The test of the clock on a clock that counts the seconds, and on one that cannot be set.
use at91_sam9x25_drivers.Prelude.{
  ℕ, ◌+◌, ◌/◌, ◌%◌, ◌≡◌, refl, Bool, true, false, some, List, [], ◌∷◌, length, if◌then◌else◌, arith,
}
use at91_sam9x25_drivers.Programs.ClockTest.{Time, Clock, closed, left_open, rtc_test, rtc_demo}
use at91_sam9x25_drivers.Programs.ClockTest.Shows.{
  IsGoing, IsAt, AreAt, date, second, rtc_test-shows,
}

-- A day and the seconds of it.
abbrev at : (ℕ × ℕ × ℕ) × ℕ → Time
at ((year, mon, mday), s) = record {
  tm_year = year;
  tm_mon = mon;
  tm_mday = mday;
  tm_hour = s / 3600;
  tm_min = s / 60 % 60;
  tm_sec = s % 60;
  tm_wday = 1;
  tm_isdst = 0;
}

abbrev counter : (refuses : Bool) → Clock
counter refuses = record {
  World = (ℕ × ℕ × ℕ) × ℕ;
  set_time = λ t w. if refuses then (true, w) else (false, (date t, second t));
  rd_time = λ w. some (at w);
  sleep = λ n w. (w.0, w.1 + n);
}

counter-IsGoing : IsGoing (counter false)
counter-IsGoing = record {
  day = λ w. w.0;
  now = λ w. w.1;
  takes = λ t w p. (refl, refl, refl);
  goes = λ n w lt. (refl, refl);
  reads = λ w. (at w, refl, refl, omega arith, omega arith, omega arith);
}

abbrev start : (ℕ × ℕ × ℕ) × ℕ
start = ((70, 0, 1), 0)

rtc_test-shows_example :
    ((ts : List Time) × (rtc_test (counter false) true start ≡ (ts, closed))
      × (length ts ≡ 10)
      × AreAt 10 ts)
    × ((found t : Time) × ((counter false).rd_time start ≡ some found)
        × (rtc_demo (counter false) true start ≡ (found ∷ t ∷ [], closed))
        × IsAt 15 t)
rtc_test-shows_example = rtc_test-shows (counter false) counter-IsGoing start

refused_example : rtc_test (counter true) true start ≡ ([], left_open)
unfolding rtc_test
refused_example = refl
