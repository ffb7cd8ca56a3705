-- ===== src/Programs/Tests.antt =====
-- The theorems about the programs at concrete inputs.
use at91_sam9x25_drivers.Prelude.{
  ℕ, ◌+◌, ◌*◌, ◌≡◌, ◌↔◌, refl, List, map, true, inl, inr, false, some, [], ◌∷◌, arith,
}
use at91_sam9x25_drivers.Prelude.Int.{pos, negsuc}
use at91_sam9x25_drivers.Programs.Temperature.{temp_calculate, temp_calculate_lem}
use at91_sam9x25_drivers.Programs.SensorTest.{
  ctl_cmd, ds18b20_args, readings, ds18b20_test, ds18b20_test-shows,
}
use at91_sam9x25_drivers.Ds18b20.Latest.{loaded}
use at91_sam9x25_drivers.Programs.Menu.{orders, main, main-ends}
use at91_sam9x25_drivers.Programs.Modem.{Answers, fault, cdma_test, cdma_test-overruns}
use at91_sam9x25_drivers.Kernel.{val}
use at91_sam9x25_drivers.Ds18b20.{ds18b20_ioctl}
use at91_sam9x25_drivers.Kernel.Plain.{plain}
use at91_sam9x25_drivers.Pins.{get_port_pin}
use at91_sam9x25_drivers.Gpio.Tests.{Levels, latch, latch-IsLatch, keep, low}
use at91_sam9x25_drivers.Programs.GpioTest.{gpio_test, in_turn, gpio_test-blinks}
use at91_sam9x25_drivers.Programs.Terminal.{b115200, Termios, tty_init}
use at91_sam9x25_drivers.Programs.Terminal.Mode.{LineMode, none_at_all, mode_of, tty_init-mode}

main-ends_example : main 4 (b'3' ∷ b'\n' ∷ b'q' ∷ b'6' ∷ []) ≡ some (orders (b'3' ∷ b'\n' ∷ []))
main-ends_example = main-ends 4 (b'3' ∷ b'\n' ∷ b'q' ∷ b'6' ∷ [])

abbrev answers : Answers
answers = record {
  opened = pos 3;
  tcgetattr = pos 0;
  tcsetattr = pos 0;
  written = pos 3;
  selected = pos 1;
  errno = 0;
  received = some (79 ∷ 75 ∷ []);
}

cdma_test-overruns_example : ((cdma_test answers).1 ≡ fault) ↔ (◌≡◌ {A = ℕ} 2 512)
cdma_test-overruns_example = cdma_test-overruns answers 2 0 refl refl refl refl refl (omega arith)

temp_calculate_lem_example : temp_calculate 0xff 0x5e ≡ 32768 + (10 * 256 + 1)
temp_calculate_lem_example = temp_calculate_lem (negsuc 161) (omega arith)

-- The modem's terminal.
eight_n_one : LineMode
eight_n_one = record { bits = 8; parity = none_at_all; rate = 115200; stops = 1 }

tty_init-mode_example :
    (t : Termios) × (tty_init (pos 0) (pos 0) 115200 8 b'N' 1 ≡ (pos 0, some t))
    × (mode_of t ≡ record { bits = 8; parity = none_at_all; rate = 115200; stops = 1 })
    × (t.ispeed ≡ t.ospeed)
    × (t.echo ≡ false)
    × (t.icanon ≡ false)
    × (t.isig ≡ false)
unfolding eight_n_one
tty_init-mode_example =
    tty_init-mode (pos 0) eight_n_one b115200 (inr refl) (λ e. cc e) refl (inl refl)

-- Pin PB0, on a controller that holds the level of each pin, all low at first.
gpio_test-blinks_example :
    (ws : List Levels) × (gpio_test plain latch keep true low ≡ some ws)
    × (map (λ w. w.0 (get_port_pin 32 (pos 1) (pos 0))) ws ≡ in_turn plain latch keep 10)
gpio_test-blinks_example =
    gpio_test-blinks plain latch keep latch-IsLatch low 1 0 (omega arith) (omega arith)

-- No sensor on the line, which stays high.
ds18b20_test-shows_example :
    (ds18b20_ioctl plain 32 ctl_cmd ds18b20_args (loaded (pos 0)) ≡ (val 0, loaded (pos 0)))
    × ((ds18b20_test plain 32 (λ _. true) true (loaded (pos 0))).0
        ≡ some (readings plain 32 (λ _. true) (pos 0) 10 0))
ds18b20_test-shows_example = ds18b20_test-shows plain 32 (λ _. true) (pos 0)
