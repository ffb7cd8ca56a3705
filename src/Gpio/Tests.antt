-- ===== src/Gpio/Tests.antt =====
-- The theorems about the pins on a controller that keeps a value for each pin.
use at91_sam9x25_drivers.Prelude.{
  ◌+◌, ◌*◌, ◌≡◌, ◌≢◌, ◌↔◌, refl, ap, Bool, true, false, some, ◌==◌, ==_iff, Bool-cases, inl, inr,
  if◌then◌else◌, arith, ◌&&◌, List, [], ◌∷◌,
}
use at91_sam9x25_drivers.Prelude.Int.{ℤ, pos, negsuc}
use at91_sam9x25_drivers.Kernel.Plain.{plain}
use at91_sam9x25_drivers.Kernel.{val}
use at91_sam9x25_drivers.Pins.{get_port_pin}
use at91_sam9x25_drivers.Pins.Numbers.{get_port_pin-eq}
use at91_sam9x25_drivers.Gpio.{Controller, Ctl, at91gpio_ioctl, at91gpio_read, at91gpio_ctl}
use at91_sam9x25_drivers.Gpio.Latch.{IsLatch, Write, write_all, level, request, write-read}

-- The test of two pin numbers.
pub same_pin : ℤ → ℤ → Bool
same_pin (pos a) (pos b) = a == b
same_pin (negsuc a) (negsuc b) = a == b
same_pin _ _ = false

pub same_pin_self : (n : ℤ) → same_pin n n ≡ true
unfolding same_pin
same_pin_self (pos a) = ground arith
same_pin_self (negsuc a) = ground arith

pub same_pin_apart : (n m : ℤ) → n ≢ m → same_pin n m ≡ false
unfolding same_pin
same_pin_apart (pos a) (pos b) ne = elim (Bool-cases (a == b)) [
  | inl e ↦ absurd (ne (ap pos ((==_iff a b).0 e)))
  | inr e ↦ e
]
same_pin_apart (negsuc a) (negsuc b) ne = elim (Bool-cases (a == b)) [
  | inl e ↦ absurd (ne (ap negsuc ((==_iff a b).0 e)))
  | inr e ↦ e
]
same_pin_apart (pos a) (negsuc b) ne = refl
same_pin_apart (negsuc a) (pos b) ne = refl

-- A world is the level of each pin, and whether it is an output.
abbrev pub Levels : Type 0
Levels = (ℤ → ℤ) × (ℤ → Bool)

-- Storing a value in an input has no effect that can be read.
abbrev pub latch : Controller
latch = record {
  World = Levels;
  pin_base = 32;
  set_input = λ n w. (w.0, λ m. if same_pin n m then false else w.1 m);
  set_output = λ n w. (w.0, λ m. if same_pin n m then true else w.1 m);
  set_value = λ n v w. (λ m. if same_pin n m && w.1 n then level v else w.0 m, w.1);
  get_value = λ n w. w.0 n;
}

pub latch-IsLatch : IsLatch latch
latch-IsLatch = record {
  output = λ n w. w.1 n;
  made = λ n w. rw (same_pin_self n) refl;
  stays = λ n m v w. refl;
  own = λ n v w out. rw (same_pin_self n, out) refl;
  apart = λ n m v w ne. rw (same_pin_apart n m ne) refl;
}

-- The user's copy is not kept.
abbrev pub keep : Ctl → Levels → Bool × Levels
keep arg w = (false, w)

-- All low, and no output.
abbrev pub low : Levels
low = (λ n. pos 0, λ n. false)

-- To pin PB18, to PA18, and to PB18 again.
abbrev written : List Write
written =
    record { port = 1; pin = 18; inout = pos 0; value = pos 0 }
    ∷ record { port = 0; pin = 18; inout = pos 0; value = pos 0 }
    ∷ record { port = 1; pin = 18; inout = pos 0; value = pos 7 }
    ∷ []

write-read_example :
    (w1 : Levels) × (at91gpio_ioctl plain latch keep
        (at91gpio_ctl plain)
        (some (request plain latch keep 1 18 (pos 1) (pos 0)))
        low
      ≡ (val 0, w1))
    × (at91gpio_ioctl plain latch keep
          (at91gpio_read plain)
          (some (request plain latch keep 1 18 (pos 0) (pos 0)))
          (write_all plain latch keep written w1)
        ≡ (val 0, write_all plain latch keep written w1))
write-read_example =
    write-read plain latch keep 1 18 (pos 0) (pos 0) (pos 0) written low latch-IsLatch (omega arith)
      (omega arith)
      (omega arith, omega arith, (omega arith, omega arith, (omega arith, omega arith, tt)))

-- Pin 36 of port PA is pin 4 of port PB.
get_port_pin-eq_example :
    (get_port_pin 32 (pos 0) (pos 36) ≡ get_port_pin 32 (pos 1) (pos 4))
    ↔ (36 + 32 * 0 ≡ 4 + 32 * 1)
get_port_pin-eq_example = get_port_pin-eq 32 0 36 1 4 (omega arith) (omega arith)
