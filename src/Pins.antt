-- ===== src/Pins.antt =====
-- The numbering of the pins that at91gpio/at91gpio.c and ds18b20/ds18b20.c share.
pub mod Numbers
use at91_sam9x25_drivers.Prelude.{ℕ, zero, suc, ◌+◌}
use at91_sam9x25_drivers.Prelude.Int.{ℤ, pos, negsuc, add_ℕ}

-- `get_port_pin`, from the kernel's `PIN_BASE`: the ports PA to PD are 0 to 3.
unfoldable pub get_port_pin : (pin_base : ℕ) (which_port which_pin : ℤ) → ℤ
get_port_pin pin_base (pos zero) which_pin = add_ℕ which_pin (pin_base + 0x00)
get_port_pin pin_base (pos (suc zero)) which_pin = add_ℕ which_pin (pin_base + 0x20)
get_port_pin pin_base (pos (suc (suc zero))) which_pin = add_ℕ which_pin (pin_base + 0x40)
get_port_pin pin_base (pos (suc (suc (suc zero)))) which_pin = add_ℕ which_pin (pin_base + 0x60)
get_port_pin pin_base _ which_pin = negsuc 0
