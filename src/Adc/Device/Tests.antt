-- ===== src/Adc/Device/Tests.antt =====
-- The theorem about the device of at91adc/at91adc.c on one converter.
use at91_sam9x25_drivers.Prelude.{◌≡◌, ◌+◌, ◌*◌, ◌-◌, ◌/◌, true, some, map}
use at91_sam9x25_drivers.Kernel.{val, err, efault}
use at91_sam9x25_drivers.Adc.{channels, at91adc_read}
use at91_sam9x25_drivers.Adc.Average.{average}
use at91_sam9x25_drivers.Adc.Load.Settles.{loaded}
use at91_sam9x25_drivers.Adc.Device.{Device, boot, serve_all}
use at91_sam9x25_drivers.Adc.Device.Averages.{seen, device-averages}
use at91_sam9x25_drivers.Adc.Device.Chip.{
  rounds, reading, chip, chip-IsSam9x5, at_rest, loads, numbers, answers,
}
use at91_sam9x25_drivers.Adc.Tests.{readings}

device-averages_example :
    (d0 d : Device numbers chip) × (boot numbers chip (answers (val 0)) at_rest ≡ some d0)
    × (serve_all numbers chip readings d0 ≡ some d)
    × (at91adc_read (λ _. true) 22 d.adc
        ≡ some (
          err efault,
          map
              (λ c.
                average c
                  (seen rounds (λ c. reading ((48 + 4 * c - 48) / 4) d0.converter) readings))
              channels,
        ))
device-averages_example =
    device-averages numbers chip chip-IsSam9x5 (answers (val 0)) at_rest (loaded numbers)
      (λ _. true) 22 readings loads
