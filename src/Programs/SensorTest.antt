-- ===== src/Programs/SensorTest.antt =====
-- DS18B20_test of hwtest/hwtest.c with hwtest/include/ds18b20.h, on the temperature sensor's driver.
use at91_sam9x25_drivers.Prelude.{
  ℕ, zero, suc, ◌≡◌, refl, ap, ==_iff, ◌==◌, Bool-cases, inl, inr, arith, Bool, true, false, Option,
  none, some, List, [], ◌∷◌,
}
use at91_sam9x25_drivers.Prelude.Int.{ℤ, pos}
use at91_sam9x25_drivers.Kernel.{val, Ioctls}
use at91_sam9x25_drivers.Ds18b20.{Bus, Driver, Ctl, at91_ds18b20_ctl, ds18b20_ioctl, ds18b20_read}
use at91_sam9x25_drivers.Ds18b20.Latest.{latest, loaded, reads, pads, reads-latest}

-- `ds18b20_args`: pin 4 of port PA
abbrev pub ds18b20_args : Ctl
ds18b20_args = record { which_port = pos 0; which_pin = pos 4 }

-- `at91_ds18b20_ctl` in hwtest/include/ds18b20.h is the first name of an enumeration.
abbrev pub ctl_cmd : ℕ
ctl_cmd = 0

-- The loop of reads: what each `printf` shows of `buffer`, which is the program's own, so that the
-- driver's copies to it succeed.
unfoldable pub rounds : Bus → ℕ → Driver → List (List ℕ) × Driver
rounds bus zero s = ([], s)
rounds bus (suc n) s =
    let (ret, buffer, s1) = ds18b20_read bus (λ _. false) s in
    let (rest, s2) = rounds bus n s1 in (buffer ∷ rest, s2)

module _ (k : Ioctls) (pin_base : ℕ) (bus : Bus) where
  -- `DS18B20_test`, from the result of `open`. The results of the calls are not looked at.
  unfoldable pub ds18b20_test : (opened : Bool) → Driver → Option (List (List ℕ)) × Driver
  ds18b20_test false s = (none, s)
  ds18b20_test true s =
      let (ret, s1) = ds18b20_ioctl k pin_base ctl_cmd ds18b20_args s in
      let (shown, s2) = rounds bus 10 s1 in (some shown, s2)

  -- The latest good readings after read `i + 1` and the `n` reads from there on.
  abbrev pub readings : (pin : ℤ) (n i : ℕ) → List (List ℕ)
  readings pin zero i = []
  readings pin (suc n) i = latest (pads bus (λ _. false) pin (suc i)) ∷ readings pin n (suc i)

  rounds-readings :
      (pin : ℤ) (n i : ℕ) → (rounds bus n (reads bus (λ _. false) pin i)).0 ≡ readings pin n i
  unfolding rounds
  rounds-readings pin zero i = refl
  rounds-readings pin (suc n) i =
      rw (reads-latest bus (λ _. false) pin i)
        (ap (λ rs. latest (pads bus (λ _. false) pin (suc i)) ∷ rs) (rounds-readings pin n (suc i)))

  -- The driver does not know the command.
  unknown : (s : Driver) → ds18b20_ioctl k pin_base ctl_cmd ds18b20_args s ≡ (val 0, s)
  unfolding ds18b20_ioctl
  unknown s = elim (Bool-cases (ctl_cmd == at91_ds18b20_ctl k pin_base)) [
    | inl e ↦
        absurd
          (omega (arith, k.iowr-pos b'D' 1 8, (==_iff ctl_cmd (at91_ds18b20_ctl k pin_base)).0 e))
    | inr e ↦ rw e refl
  ]

  -- The command by which the test asks for pin PA4 is none of the driver's and changes nothing, and
  -- reports no error: on a driver that has just been loaded the test shows ten readings of a sensor on
  -- the pin that the driver was loaded with, each that of the latest scratchpad that passed its check
  -- until then.
  pub ds18b20_test-shows :
      (pin : ℤ)
      → (ds18b20_ioctl k pin_base ctl_cmd ds18b20_args (loaded pin) ≡ (val 0, loaded pin))
        × ((ds18b20_test true (loaded pin)).0 ≡ some (readings pin 10 0))
  unfolding ds18b20_test reads
  ds18b20_test-shows pin =
      (unknown (loaded pin), rw (unknown (loaded pin)) (ap some (rounds-readings pin 10 0)))
