-- ===== src/Gpio.antt =====
-- The pin driver at91gpio/at91gpio.c, over the kernel's pin controller.
pub mod Latch
pub mod Tests
use at91_sam9x25_drivers.Prelude.{ℕ, zero, suc, Bool, Option, none, some, ◌==◌, if◌then◌else◌}
use at91_sam9x25_drivers.Prelude.Int.{ℤ, pos, negsuc}
use at91_sam9x25_drivers.Kernel.{Ret, val, err, eperm, efault, Ioctls}
use at91_sam9x25_drivers.Kernel.Misc.{misc_register, misc_deregister}
use at91_sam9x25_drivers.Pins.{get_port_pin}

-- `at91_set_gpio_input`, `at91_set_gpio_output`, `at91_set_gpio_value` and `at91_get_gpio_value`, and
-- `PIN_BASE`. `World` is the state of the controller and of the user's memory.
pub record Controller : Type 1 where
  pub World : Type 0
  pub pin_base : ℕ
  pub set_input : ℤ → World → World
  pub set_output : ℤ → World → World
  pub set_value : ℤ → ℤ → World → World
  pub get_value : ℤ → World → ℤ

-- `at91_gpio_ctl_s`
pub record Ctl : Type 0 where
  pub which_port : ℤ
  pub which_pin : ℤ
  pub inout : ℤ
  pub value : ℤ

module _ (k : Ioctls) where
  abbrev pub at91gpio_ctl : ℕ
  at91gpio_ctl = k.iowr b'k' 1 16

  abbrev pub at91gpio_write : ℕ
  at91gpio_write = k.iowr b'k' 2 16

  abbrev pub at91gpio_read : ℕ
  at91gpio_read = k.iowr b'k' 3 16

module _ (c : Controller) where
  -- `gpio_init`: 0 is `at91_gpio_in`, 1 is `at91_gpio_out`.
  unfoldable pub gpio_init : (port_pin inout : ℤ) → c.World → Ret × c.World
  gpio_init port_pin (pos zero) w = (val 0, c.set_input port_pin w)
  gpio_init port_pin (pos (suc zero)) w = (val 0, c.set_output port_pin w)
  gpio_init port_pin _ w = (err eperm, w)

-- `put_back` is the `copy_to_user` of the argument, with whether it failed.
module _ (k : Ioctls) (c : Controller) (put_back : Ctl → c.World → Bool × c.World) where
  abbrev pub copied : Bool × c.World → Ret × c.World
  copied (failed, w) = (if failed then err efault else val 0, w)

  -- The command on a pin; the result of `gpio_init` is dropped.
  unfoldable pub command : (cmd : ℕ) (port_pin : ℤ) → Ctl → c.World → Ret × c.World
  command cmd port_pin arg w =
      if cmd == at91gpio_write k
      then (val 0, c.set_value port_pin arg.value w)
      else if cmd == at91gpio_read k
      then copied (put_back (record arg { value = c.get_value port_pin w }) w)
      else if cmd == at91gpio_ctl k
      then (val 0, (gpio_init c port_pin arg.inout w).1)
      else (val 0, w)

  abbrev pub dispatch : (cmd : ℕ) (port_pin : ℤ) → Ctl → c.World → Ret × c.World
  dispatch cmd (negsuc zero) arg w = (err eperm, w)
  dispatch cmd n arg w = command cmd n arg w

  -- `at91gpio_ioctl`, where `fetched` is the argument, `none` if it cannot be copied in.
  unfoldable pub at91gpio_ioctl : (cmd : ℕ) (fetched : Option Ctl) → c.World → Ret × c.World
  at91gpio_ioctl cmd none w = (err efault, w)
  at91gpio_ioctl cmd (some arg) w =
      dispatch cmd (get_port_pin c.pin_base arg.which_port arg.which_pin) arg w

-- `at91gpio_init`, from the result of `misc_register`, with whether the device is registered then, and
-- `at91gpio_exit`.
unfoldable at91gpio_init : Ret → Ret × Bool
at91gpio_init ret = misc_register ret

unfoldable at91gpio_exit : (registered : Bool) → Option Bool
at91gpio_exit registered = misc_deregister registered
