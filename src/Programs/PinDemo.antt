-- ===== src/Programs/PinDemo.antt =====
-- The programs at91gpio/at91gpio_demo.c and cdma-mc323/mc323_demo.c, on the models of their drivers.
use at91_sam9x25_drivers.Prelude.{
  ◌≡◌, refl, arith, ℕ, Bool, true, false, Option, none, some, List, [],
}
use at91_sam9x25_drivers.Prelude.Int.{ℤ, pos}
use at91_sam9x25_drivers.Kernel.{Ret, Ioctls}
use at91_sam9x25_drivers.Gpio.{
  Controller, Ctl, at91gpio_ioctl, at91gpio_ctl, at91gpio_write, at91gpio_read,
}
use at91_sam9x25_drivers.Pins.{get_port_pin}
use at91_sam9x25_drivers.Gpio.{gpio_init}
use at91_sam9x25_drivers.Gpio.Latch.{write_runs, read_runs, ctl_runs}
use at91_sam9x25_drivers.Mc323.{Step, at91mc323_ioctl}

module _ (k : Ioctls) (c : Controller) where
  -- The controller with the program's `at91_gpio_ctl_arg` as the user's memory.
  abbrev pub with_arg : Controller
  with_arg = record {
    World = c.World × Ctl;
    pin_base = c.pin_base;
    set_input = λ n s. (c.set_input n s.0, s.1);
    set_output = λ n s. (c.set_output n s.0, s.1);
    set_value = λ n v s. (c.set_value n v s.0, s.1);
    get_value = λ n s. c.get_value n s.0;
  }

  -- A copy to the argument, which does not fail.
  abbrev pub stored : Ctl → c.World × Ctl → Bool × (c.World × Ctl)
  stored a s = (false, (s.0, a))

  -- `ioctl(fd, cmd, &at91_gpio_ctl_arg)`: copies to and from the program's own memory succeed.
  unfoldable pub call : (cmd : ℕ) → c.World × Ctl → Ret × (c.World × Ctl)
  call cmd s = at91gpio_ioctl k with_arg stored cmd (some s.1) s

  -- The argument at first: pin 15 of port PA, out, and 1.
  abbrev pub pa15_out : Ctl
  pa15_out = record { which_port = pos 0; which_pin = pos 15; inout = pos 1; value = pos 1 }

  -- `main` of at91gpio_demo.c: the value that is printed, and the controller then; `none` where the
  -- device cannot be opened. The results of the commands decide only about messages.
  unfoldable pub gpio_demo : (opened : Bool) → c.World → Option (ℤ × c.World)
  gpio_demo false w = none
  gpio_demo true w =
      let (r1, (w1, a1)) = call (at91gpio_ctl k) (w, pa15_out) in
      let (r2, (w2, a2)) = call (at91gpio_write k) (w1, a1) in
      let (r3, (w3, a3)) = call (at91gpio_ctl k) (w2, record a2 { inout = pos 0 }) in
      let (r4, (w4, a4)) = call (at91gpio_read k) (w3, a3) in some (a4.value, w4)

-- `main` of mc323_demo.c: what is done to the lines of the modem, where `at91_mc323_reset` is 3.
unfoldable pub mc323_demo : (opened : Bool) → List Step
mc323_demo false = []
mc323_demo true = (at91mc323_ioctl 3).1

module _ (k : Ioctls) (c : Controller) where
  abbrev pa15 : ℤ
  pa15 = get_port_pin c.pin_base (pos 0) (pos 15)

  -- Pin PA15 becomes an output, is set to 1, and becomes an input; what it reads then is printed.
  gpio_demo_lem :
      (w : c.World)
      → gpio_demo k c true w ≡ (
          let w' = c.set_input pa15 (c.set_value pa15 (pos 1) (c.set_output pa15 w)) in
          some (c.get_value pa15 w', w'))
  unfolding gpio_demo call gpio_init
  gpio_demo_lem w =
      let w1 : c.World × Ctl = (c.set_output pa15 w, pa15_out k c) in
      let w2 : c.World × Ctl = (c.set_value pa15 (pos 1) w1.0, pa15_out k c) in
      let w3 : c.World × Ctl = (c.set_input pa15 w2.0, record (pa15_out k c) { inout = pos 0 }) in
      rw
        (
          ctl_runs k (with_arg k c) (stored k c) 0 15 (pos 1) (pos 1) (w, pa15_out k c)
              (omega arith),
          write_runs k (with_arg k c) (stored k c) 0 15 (pos 1) (pos 1) w1 (omega arith),
          ctl_runs k (with_arg k c) (stored k c) 0 15 (pos 0) (pos 1)
              (w2.0, record (pa15_out k c) { inout = pos 0 }) (omega arith),
          read_runs k (with_arg k c) (stored k c) 0 15 (pos 0) (pos 1) w3 (omega arith),
        )
        refl
