-- ===== src/Programs/Terminal/Mode.antt =====
-- What the settings of tty_init in hwtest/hwtest.c mean to the line.
use at91_sam9x25_drivers.Prelude.{
  ℕ, zero, ◌≡◌, ◌≢◌, ◌⊎◌, refl, sym, subst, false, some, if◌then◌else◌, arith,
}
use at91_sam9x25_drivers.Prelude.Int.{ℤ, pos, negsuc}
use at91_sam9x25_drivers.Programs.Terminal.{
  CharSize, Speed, Termios, raw, with_bits, with_event, with_speed, with_stop, tty_init, cs5, cs7,
  cs8, b0, b2400, b4800, b9600, b115200, b460800,
}

-- What settings mean to the line: bits of a character, parity, bits per second and stop bits.
pub data Parity : Type 0 where
  none_at_all odd even : Parity

pub record LineMode : Type 0 where
  pub bits : ℕ
  pub parity : Parity
  pub rate : ℕ
  pub stops : ℕ

abbrev pub bits_of : CharSize → ℕ
bits_of cs5 = 5
bits_of cs7 = 7
bits_of cs8 = 8

abbrev pub rate_of : Speed → ℕ
rate_of b0 = 0
rate_of b2400 = 2400
rate_of b4800 = 4800
rate_of b9600 = 9600
rate_of b115200 = 115200
rate_of b460800 = 460800

abbrev pub mode_of : Termios → LineMode
mode_of t = record {
  bits = bits_of t.csize;
  parity = if t.parenb then (if t.parodd then odd else even) else none_at_all;
  rate = rate_of t.ospeed;
  stops = if t.cstopb then 2 else 1;
}

abbrev pub event_of : Parity → ℕ
event_of none_at_all = b'N'
event_of odd = b'O'
event_of even = b'E'

-- The settings that are asked for.
abbrev pub asked : (speed bits event stop : ℕ) → Termios
asked speed bits event stop =
    record (with_stop stop (with_speed speed (with_event event (with_bits bits raw)))) {
      vtime = 1;
      vmin = 0;
    }

csize-asked :
    (speed bits event stop : ℕ)
    → (bits ≡ 7) ⊎ (bits ≡ 8)
    → bits_of (asked speed bits event stop).csize ≡ bits
csize-asked speed bits event stop h = ground arith

stops-asked :
    (speed bits event stop : ℕ)
    → (stop ≡ 1) ⊎ (stop ≡ 2)
    → (if (asked speed bits event stop).cstopb then 2 else 1) ≡ stop
stops-asked speed bits event stop h = ground arith

rate-asked :
    (s : Speed) (bits event stop : ℕ)
    → s ≢ b0
    → rate_of (asked (rate_of s) bits event stop).ospeed ≡ rate_of s
rate-asked b0 bits event stop h = absurd (h refl)
rate-asked s bits event stop h = ground arith

parity-asked :
    (speed bits stop : ℕ) (q : Parity) → (mode_of (asked speed bits (event_of q) stop)).parity ≡ q
parity-asked speed bits stop none_at_all = ground arith
parity-asked speed bits stop q = ground arith

-- No echo, no line editing, no signals, and the same speed in both directions.
raw-asked :
    (speed bits event stop : ℕ)
    → let t = asked speed bits event stop in
      (t.ispeed ≡ t.ospeed) × (t.echo ≡ false) × (t.icanon ≡ false) × (t.isig ≡ false)
raw-asked speed bits event stop = ground arith

LineMode_ext :
    (l m : LineMode)
    → l.bits ≡ m.bits
    → l.parity ≡ m.parity
    → l.rate ≡ m.rate
    → l.stops ≡ m.stops
    → l ≡ m
LineMode_ext l m b p r s = ground arith

-- Asked for a mode of seven or eight bits at a speed that it knows, with one or two stop bits,
-- `tty_init` sets just this mode, for both directions, and an input without echo, line editing and
-- signals, and returns 0 exactly if the settings are taken.
pub tty_init-mode :
    (tcsetattr : ℤ) (m : LineMode) (s : Speed)
    → (m.bits ≡ 7) ⊎ (m.bits ≡ 8)
    → s ≢ b0
    → m.rate ≡ rate_of s
    → (m.stops ≡ 1) ⊎ (m.stops ≡ 2)
    → (t : Termios) × (tty_init (pos 0) tcsetattr m.rate m.bits (event_of m.parity) m.stops
        ≡ (elim tcsetattr [ pos zero ↦ pos 0 | _ ↦ negsuc 0 ], some t))
      × (mode_of t ≡ m)
      × (t.ispeed ≡ t.ospeed)
      × (t.echo ≡ false)
      × (t.icanon ≡ false)
      × (t.isig ≡ false)
unfolding tty_init
tty_init-mode tcsetattr m s bits known rate stops =
    let event = event_of m.parity in
    let (both, echo, canonical, signals) = raw-asked m.rate m.bits event m.stops in
    (
      asked m.rate m.bits event m.stops,
      refl,
      LineMode_ext (mode_of (asked m.rate m.bits event m.stops)) m
          (csize-asked m.rate m.bits event m.stops bits)
          (parity-asked m.rate m.bits m.stops m.parity)
          (subst (λ r. rate_of (asked r m.bits event m.stops).ospeed ≡ r) (sym rate)
            (rate-asked s m.bits event m.stops known))
          (stops-asked m.rate m.bits event m.stops stops),
      both,
      echo,
      canonical,
      signals,
    )
