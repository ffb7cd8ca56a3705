-- ===== src/Programs/ClockTest.antt =====
-- RTC_test of hwtest/hwtest.c and at91rtc/rtc_demo.c, over the kernel's clock.
pub mod Shows
pub mod Ends
mod Tests
use at91_sam9x25_drivers.Prelude.{
  ℕ, zero, suc, ◌-◌, Bool, true, false, Option, none, some, List, [], ◌∷◌, if◌then◌else◌,
}

-- `struct rtc_time`, as far as the programs use it: years from 1900, months from 0.
pub record Time : Type 0 where
  pub tm_year : ℕ
  pub tm_mon : ℕ
  pub tm_mday : ℕ
  pub tm_hour : ℕ
  pub tm_min : ℕ
  pub tm_sec : ℕ
  pub tm_wday : ℕ
  pub tm_isdst : ℕ

-- `RTC_SET_TIME`, with whether it fails, `RTC_RD_TIME`, `none` where it fails, and `sleep`.
pub record Clock : Type 1 where
  pub World : Type 0
  pub set_time : Time → World → Bool × World
  pub rd_time : World → Option Time
  pub sleep : ℕ → World → World

-- What becomes of the open device: it could not be opened, it is left open at a return, or in the
-- demo at an `exit`, in case of an error, or it is closed at the end.
pub data Ending : Type 0 where
  not_opened left_open closed : Ending

-- The time that both programs set.
abbrev pub rtc_tm : Time
rtc_tm = record {
  tm_year = 2012 - 1900;
  tm_mon = 3 - 1;
  tm_mday = 12;
  tm_hour = 10;
  tm_min = 10;
  tm_sec = 10;
  tm_wday = 2;
  tm_isdst = 0;
}

-- A reading and its `printf`, and what follows if it succeeds.
abbrev pub shown_from : Option Time → (rest : List Time × Ending) → List Time × Ending
shown_from none rest = ([], left_open)
shown_from (some t) (shown, ending) = (t ∷ shown, ending)

module _ (c : Clock) where
  open c use {World, set_time, rd_time, sleep}

  -- The loop for `n` more rounds, and the `close`: the times that are shown.
  unfoldable pub show_times : (n : ℕ) → World → List Time × Ending
  show_times zero w = ([], closed)
  show_times (suc n) w =
      let w1 = sleep 5 w in let rest = show_times n w1 in shown_from (rd_time w1) rest

  -- `RTC_SET_TIME` and what follows if it succeeds.
  abbrev pub set_and : (rest : World → List Time × Ending) → World → List Time × Ending
  set_and rest w =
      let (failed, w1) = set_time rtc_tm w in if failed then ([], left_open) else rest w1

  unfoldable pub rtc_test : (opened : Bool) → World → List Time × Ending
  rtc_test false w = ([], not_opened)
  rtc_test true w = set_and (show_times 10) w

  -- `main` of at91rtc/rtc_demo.c, which reads the time before it sets it.
  unfoldable pub rtc_demo : (opened : Bool) → World → List Time × Ending
  rtc_demo false w = ([], not_opened)
  rtc_demo true w = let rest = set_and (show_times 1) w in shown_from (rd_time w) rest
