-- ===== src/Gpio/Latch.antt =====
-- What at91gpio/at91gpio.c reads back from a controller that holds the values of its pins.
use at91_sam9x25_drivers.Prelude.{
  ==_self, ℕ, zero, ◌<◌, ◌≡◌, ◌≢◌, refl, sym, ap, ◌∙◌, Bool, some, ◌==◌, if◌then◌else◌, Bool-cases,
  inl, inr, arith, ◌&&◌, ==_iff, false, true, List, [], ◌∷◌,
}
use at91_sam9x25_drivers.Prelude.Int.{ℤ, pos}
use at91_sam9x25_drivers.Kernel.{val, Ioctls}
use at91_sam9x25_drivers.Pins.{get_port_pin}
use at91_sam9x25_drivers.Pins.Numbers.{get_port_pin_lem, get_port_pin-separates}
use at91_sam9x25_drivers.Gpio.{
  Controller, Ctl, at91gpio_write, at91gpio_read, at91gpio_ctl, gpio_init, at91gpio_ioctl, command,
  copied,
}

-- A pin reads 1 after any value other than 0 has been stored, and 0 after 0.
abbrev pub level : ℤ → ℤ
level (pos zero) = pos 0
level _ = pos 1

-- `output n w` tells whether pin `n` is an output. A value that is stored in an output can be read back
-- there, and storing changes no other pin, nor what is an output.
pub record IsLatch (c : Controller) : Type 0 where
  pub output : ℤ → c.World → Bool
  pub made : (n : ℤ) (w : c.World) → output n (c.set_output n w) ≡ true
  pub stays : (n m v : ℤ) (w : c.World) → output m (c.set_value n v w) ≡ output m w
  pub own :
      (n v : ℤ) (w : c.World) → output n w ≡ true → c.get_value n (c.set_value n v w) ≡ level v
  pub apart :
      (n m v : ℤ) (w : c.World) → n ≢ m → c.get_value m (c.set_value n v w) ≡ c.get_value m w

-- The argument of a write.
pub record Write : Type 0 where
  pub port : ℕ
  pub pin : ℕ
  pub inout : ℤ
  pub value : ℤ

-- Pins of the four ports.
abbrev pub AreOnPorts : List Write → Type 0
AreOnPorts [] = Unit
AreOnPorts (x ∷ xs) = (x.port < 4) × (x.pin < 32) × AreOnPorts xs

-- What a pin reads that read `before`: 1 or 0 for the last value that is written to it.
abbrev pub last_level : (port pin : ℕ) → List Write → (before : ℤ) → ℤ
last_level port pin [] before = before
last_level port pin (x ∷ xs) before =
    last_level port pin xs (if x.port == port && x.pin == pin then level x.value else before)

-- Commands whose numbers differ have different codes.
codes_differ :
    (k : Ioctls) (a b : ℕ)
    → a < 256
    → b < 256
    → a ≢ b
    → (k.iowr b'k' a 16 == k.iowr b'k' b 16) ≡ false
codes_differ k a b la lb ne = elim (Bool-cases (k.iowr b'k' a 16 == k.iowr b'k' b 16)) [
  | inl e ↦ absurd (
      ne (
        sym (k.ioc_nr-iowr b'k' a 16 la)
        ∙ ap k.ioc_nr ((==_iff _ _).0 e)
        ∙ k.ioc_nr-iowr b'k' b 16 lb))
  | inr e ↦ e
]

module _ (k : Ioctls) (c : Controller) (put_back : Ctl → c.World → Bool × c.World) where
  -- The argument of a command on a pin.
  abbrev pub request : (port pin : ℕ) (inout value : ℤ) → Ctl
  request port pin inout value = record {
    which_port = pos port;
    which_pin = pos pin;
    inout = inout;
    value = value;
  }

  abbrev pub number : (port pin : ℕ) → ℤ
  number port pin = get_port_pin c.pin_base (pos port) (pos pin)

  -- A command on a pin of one of the four ports gets to that pin.
  reaches :
      (cmd port pin : ℕ) (inout value : ℤ) (w : c.World)
      → port < 4
      → at91gpio_ioctl k c put_back cmd (some (request port pin inout value)) w
        ≡ command k c put_back cmd (number port pin) (request port pin inout value) w
  unfolding at91gpio_ioctl
  reaches cmd port pin inout value w lt = rw (get_port_pin_lem c.pin_base port pin lt) refl

  pub write_runs :
      (port pin : ℕ) (inout value : ℤ) (w : c.World)
      → port < 4
      → at91gpio_ioctl k c put_back (at91gpio_write k) (some (request port pin inout value)) w
        ≡ (val 0, c.set_value (number port pin) value w)
  unfolding command
  write_runs port pin inout value w lt =
      reaches (at91gpio_write k) port pin inout value w lt ∙ rw (==_self (at91gpio_write k)) refl

  pub ctl_runs :
      (port pin : ℕ) (inout value : ℤ) (w : c.World)
      → port < 4
      → at91gpio_ioctl k c put_back (at91gpio_ctl k) (some (request port pin inout value)) w
        ≡ (val 0, (gpio_init c (number port pin) inout w).1)
  unfolding command
  ctl_runs port pin inout value w lt =
      reaches (at91gpio_ctl k) port pin inout value w lt
      ∙ rw
          (
            codes_differ k 1 2 (omega arith) (omega arith) (λ e. absurd (omega (arith, e))),
            codes_differ k 1 3 (omega arith) (omega arith) (λ e. absurd (omega (arith, e))),
            ==_self (at91gpio_ctl k),
          )
          refl

  pub read_runs :
      (port pin : ℕ) (inout value : ℤ) (w : c.World)
      → port < 4
      → at91gpio_ioctl k c put_back (at91gpio_read k) (some (request port pin inout value)) w
        ≡ copied k c put_back
            (put_back (request port pin inout (c.get_value (number port pin) w)) w)
  unfolding command
  read_runs port pin inout value w lt =
      reaches (at91gpio_read k) port pin inout value w lt
      ∙ rw
          (
            codes_differ k 3 2 (omega arith) (omega arith) (λ e. absurd (omega (arith, e))),
            ==_self (at91gpio_read k),
          )
          refl

  seen :
      (port pin port' pin' : ℕ) (value : ℤ) (w : c.World) (latch : IsLatch c)
      → latch.output (number port' pin') w ≡ true
      → port < 4
      → port' < 4
      → pin < 32
      → pin' < 32
      → c.get_value (number port' pin') (c.set_value (number port pin) value w)
        ≡ (if port == port' && pin == pin' then level value else c.get_value (number port' pin') w)
  seen port pin port' pin' value w latch out l l' h h' =
      elim (Bool-cases (port == port' && pin == pin')) [
        | inl e ↦
            let same : (port ≡ port') × (pin ≡ pin') = ground arith in
            rw (e, same.0, same.1) (latch.own (number port' pin') value w out)
        | inr e ↦ rw e (
            latch.apart (number port pin) (number port' pin') value w (λ eq.
              let same = get_port_pin-separates c.pin_base port pin port' pin' l l' h h' eq in
              absurd (ground (arith, same, e))))
      ]

  -- AT91GPIO_WRITE with each argument.
  abbrev pub write_all : List Write → c.World → c.World
  write_all [] w = w
  write_all (x ∷ xs) w =
      write_all xs
        (at91gpio_ioctl k c put_back (at91gpio_write k)
          (some (request x.port x.pin x.inout x.value)) w).1

  write_all-last_level :
      (port pin : ℕ) (xs : List Write) (w : c.World) (latch : IsLatch c)
      → latch.output (number port pin) w ≡ true
      → port < 4
      → pin < 32
      → AreOnPorts xs
      → c.get_value (number port pin) (write_all xs w)
        ≡ last_level port pin xs (c.get_value (number port pin) w)
  write_all-last_level port pin [] w latch out l h on = refl
  write_all-last_level port pin (x ∷ xs) w latch out l h (lx, hx, on) =
      let w1 = c.set_value (number x.port x.pin) x.value w in
      ap (λ o. c.get_value (number port pin) (write_all xs o.1))
        (write_runs x.port x.pin x.inout x.value w lx)
      ∙ write_all-last_level port pin xs w1 latch
          (latch.stays (number x.port x.pin) (number port pin) x.value w ∙ out) l h on
      ∙ ap (last_level port pin xs) (seen x.port x.pin port pin x.value w latch out lx l hx h)

  -- Over a controller that holds the values of its outputs: after AT91GPIO_CTL has made a pin an output,
  -- and AT91GPIO_WRITE has been called any number of times, on any pins, AT91GPIO_READ of the pin hands
  -- the user 1 or 0 for the last value that was written to it, or, where there is none, what it read as
  -- soon as it was an output. All pins are of the four ports.
  pub write-read :
      (port pin : ℕ) (value inout' value' : ℤ) (xs : List Write) (w : c.World)
      → IsLatch c
      → port < 4
      → pin < 32
      → AreOnPorts xs
      → (w1 : c.World) × (at91gpio_ioctl k c put_back
            (at91gpio_ctl k)
            (some (request port pin (pos 1) value))
            w
          ≡ (val 0, w1))
        × (at91gpio_ioctl k c put_back
              (at91gpio_read k)
              (some (request port pin inout' value'))
              (write_all xs w1)
            ≡ copied k c put_back (
                put_back
                  (request port pin inout' (
                    last_level port pin xs
                      (c.get_value (get_port_pin c.pin_base (pos port) (pos pin)) w1)))
                  (write_all xs w1)))
  unfolding gpio_init
  write-read port pin value inout' value' xs w latch l h on =
      let w1 = c.set_output (number port pin) w in
      (
        w1,
        ctl_runs port pin (pos 1) value w l,
        read_runs port pin inout' value' (write_all xs w1) l
            ∙ ap (λ v. copied k c put_back (put_back (request port pin inout' v) (write_all xs w1)))
                (write_all-last_level port pin xs w1 latch (latch.made (number port pin) w) l h on),
      )
