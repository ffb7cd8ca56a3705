-- ===== src/Programs/GpioTest.antt =====
-- GPIO_test of hwtest/hwtest.c, on the pin driver's device.
use at91_sam9x25_drivers.Prelude.{
  ℕ, zero, suc, ◌<◌, ◌≡◌, refl, ap, ap₂, ◌∙◌, Bool, true, false, ◌&&◌, Option, none, some, List, [],
  ◌∷◌, map, replicate, if◌then◌else◌, ◌==◌, arith, Bool-cases, inl, inr,
}
use at91_sam9x25_drivers.Prelude.Int.{ℤ, pos}
use at91_sam9x25_drivers.Kernel.{Ioctls}
use at91_sam9x25_drivers.Pins.{get_port_pin}
use at91_sam9x25_drivers.Pins.Numbers.{get_port_pin-separates}
use at91_sam9x25_drivers.Gpio.{
  Controller, Ctl, at91gpio_ioctl, at91gpio_write, at91gpio_ctl, gpio_init,
}
use at91_sam9x25_drivers.Gpio.Latch.{IsLatch, level, request, write_runs, ctl_runs}

-- `if(value == 1) value = 0; else if(value == 0) value = 1;`
abbrev pub toggled : ℤ → ℤ
toggled (pos zero) = pos 1
toggled (pos (suc zero)) = pos 0
toggled v = v

module _ (k : Ioctls) (c : Controller) (put_back : Ctl → c.World → Bool × c.World) where
  -- The loop for `n` more rounds: the world during the second of sleep that ends each.
  unfoldable pub blink : (n : ℕ) → Ctl → c.World → List c.World
  blink zero arg w = []
  blink (suc n) arg w =
      let w1 = (at91gpio_ioctl k c put_back (at91gpio_write k) (some arg) w).1 in
      w1 ∷ blink n (record arg { value = toggled arg.value }) w1

  -- The argument at first: pin 0 of port PB, out, and 1.
  abbrev pub at_first : Ctl
  at_first = request k c put_back 1 0 (pos 1) (pos 1)

  -- The world after the command that makes the pin an output.
  unfoldable pub configured : c.World → c.World
  configured w = (at91gpio_ioctl k c put_back (at91gpio_ctl k) (some at_first) w).1

  -- `GPIO_test`, `none` where the device cannot be opened. No result of a command is looked at.
  unfoldable pub gpio_test : (opened : Bool) → c.World → Option (List c.World)
  gpio_test false w = none
  gpio_test true w = some (blink 20 at_first (configured w))

  -- `n` values that alternate, from `v` on.
  abbrev alternating : (n : ℕ) → ℤ → List ℤ
  alternating zero v = []
  alternating (suc n) v = level v ∷ alternating n (toggled v)

  -- 1 and 0 in turn, `n` times both.
  abbrev pub in_turn : (n : ℕ) → List ℤ
  in_turn zero = []
  in_turn (suc n) = pos 1 ∷ pos 0 ∷ in_turn n

  module _ (latch : IsLatch c) where
    blink-own :
        (n : ℕ) (v : ℤ) (w : c.World)
        → latch.output (get_port_pin c.pin_base (pos 1) (pos 0)) w ≡ true
        → map
            (c.get_value (get_port_pin c.pin_base (pos 1) (pos 0)))
            (blink n (request k c put_back 1 0 (pos 1) v) w)
          ≡ alternating n v
    unfolding blink
    blink-own zero v w out = refl
    blink-own (suc n) v w out =
        let mine = get_port_pin c.pin_base (pos 1) (pos 0) in
        let runs = ap (λ o. o.1) (write_runs k c put_back 1 0 (pos 1) v w (omega arith)) in
        ap₂ ◌∷◌ (ap (c.get_value mine) runs ∙ latch.own mine v w out) (
          blink-own n (toggled v) _ (ap (latch.output mine) runs ∙ latch.stays mine mine v w ∙ out))

    configured-output :
        (w : c.World) → latch.output (get_port_pin c.pin_base (pos 1) (pos 0)) (configured w) ≡ true
    unfolding configured gpio_init
    configured-output w =
        let mine = get_port_pin c.pin_base (pos 1) (pos 0) in
        ap (λ o. latch.output mine o.1) (ctl_runs k c put_back 1 0 (pos 1) (pos 1) w (omega arith))
        ∙ latch.made mine w

    -- A write to the test's pin leaves every other pin alone.
    write-apart :
        (v : ℤ) (w : c.World) (port pin : ℕ)
        → port < 4
        → pin < 32
        → (port == 1 && pin == 0) ≡ false
        → c.get_value
            (get_port_pin c.pin_base (pos port) (pos pin))
            (at91gpio_ioctl k c put_back
              (at91gpio_write k)
              (some (request k c put_back 1 0 (pos 1) v))
              w).1
          ≡ c.get_value (get_port_pin c.pin_base (pos port) (pos pin)) w
    write-apart v w port pin l l' ne =
        let mine = get_port_pin c.pin_base (pos 1) (pos 0) in
        let other = get_port_pin c.pin_base (pos port) (pos pin) in
        ap (λ o. c.get_value other o.1) (write_runs k c put_back 1 0 (pos 1) v w (omega arith))
        ∙ latch.apart mine other v w (λ eq.
          let same =
            get_port_pin-separates c.pin_base 1 0 port pin (omega arith) l (omega arith) l' eq in
          absurd (ground (arith, same, ne)))

    blink-apart :
        (n : ℕ) (v : ℤ) (w : c.World) (port pin : ℕ)
        → port < 4
        → pin < 32
        → (port == 1 && pin == 0) ≡ false
        → map
            (c.get_value (get_port_pin c.pin_base (pos port) (pos pin)))
            (blink n (request k c put_back 1 0 (pos 1) v) w)
          ≡ replicate n (c.get_value (get_port_pin c.pin_base (pos port) (pos pin)) w)
    unfolding blink
    blink-apart zero v w port pin l l' ne = refl
    blink-apart (suc n) v w port pin l l' ne = ap₂ ◌∷◌ (write-apart v w port pin l l' ne) (
        blink-apart n (toggled v) _ port pin l l' ne
        ∙ ap (replicate n) (write-apart v w port pin l l' ne))

    -- Over a controller that holds the values of its outputs, the test shows 1 and 0 on pin PB0 in turn,
    -- for twenty rounds, and every other pin of the four ports reads in each round what it read when
    -- the pin had been made an output.
    pub gpio_test-blinks :
        (w : c.World) (port pin : ℕ)
        → port < 4
        → pin < 32
        → (ws : List c.World) × (gpio_test true w ≡ some ws)
          × (map (c.get_value (get_port_pin c.pin_base (pos port) (pos pin))) ws ≡ (
              if port == 1 && pin == 0
              then in_turn 10
              else replicate 20
                  (c.get_value (get_port_pin c.pin_base (pos port) (pos pin)) (configured w))))
    unfolding gpio_test
    gpio_test-blinks w port pin l l' = (
      blink 20 at_first (configured w),
      refl,
      elim (Bool-cases (port == 1 && pin == 0)) [
        | inl e ↦
            let same : (port ≡ 1) × (pin ≡ 0) = ground arith in
            rw (e, same.0, same.1) (blink-own 20 (pos 1) (configured w) (configured-output w))
        | inr e ↦ rw e (blink-apart 20 (pos 1) (configured w) port pin l l' e)
      ],
    )
