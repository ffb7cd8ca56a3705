-- ===== src/Programs/ClockTest/Ends.antt =====
-- How RTC_test of hwtest/hwtest.c ends, whatever the clock does.
use at91_sam9x25_drivers.Prelude.{
  ℕ, zero, suc, ◌<◌, ◌≡◌, refl, ap, true, List, ◌∷◌, length, ◌⊎◌, inl, inr, Option-cases,
  Bool-cases, arith,
}
use at91_sam9x25_drivers.Programs.ClockTest.{
  Time, Clock, Ending, left_open, closed, rtc_tm, show_times, rtc_test,
}

-- All `n` times were shown and the device is closed, or some were not and it is left open.
abbrev pub EndsIn : ℕ → List Time × Ending → Type 0
EndsIn n (shown, ending) =
    ((length shown ≡ n) × (ending ≡ closed)) ⊎ ((length shown < n) × (ending ≡ left_open))

one_more :
    (n : ℕ) (t : Time) (shown : List Time) (ending : Ending)
    → EndsIn n (shown, ending)
    → EndsIn (suc n) (t ∷ shown, ending)
one_more n t shown ending (inl (all, e)) = inl (ap suc all, e)
one_more n t shown ending (inr (few, e)) = inr (omega arith, e)

module _ (c : Clock) where
  show_times-EndsIn : (n : ℕ) (w : c.World) → EndsIn n (show_times c n w)
  unfolding show_times
  show_times-EndsIn zero w = inl (refl, refl)
  show_times-EndsIn (suc n) w = elim (Option-cases (c.rd_time (c.sleep 5 w))) [
    | inl fails ↦ rw fails (inr (omega arith, refl))
    | inr (t, e) ↦ rw e (
        one_more n t (show_times c n (c.sleep 5 w)).0 (show_times c n (c.sleep 5 w)).1
          (show_times-EndsIn n (c.sleep 5 w)))
  ]

  -- Once the device is open the test closes it if all ten readings are shown, and else, where the
  -- clock refuses the time or a reading, returns with the device left open.
  pub rtc_test-EndsIn : (w : c.World) → EndsIn 10 (rtc_test c true w)
  unfolding rtc_test
  rtc_test-EndsIn w = elim (Bool-cases (c.set_time rtc_tm w).0) [
    | inl refused ↦ rw refused (inr (omega arith, refl))
    | inr taken ↦ rw taken (show_times-EndsIn 10 (c.set_time rtc_tm w).1)
  ]
