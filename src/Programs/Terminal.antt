-- ===== src/Programs/Terminal.antt =====
-- The set-up of the modem's terminal, `tty_init` of hwtest/hwtest.c.
pub mod Mode
use at91_sam9x25_drivers.Prelude.{
  ℕ, zero, ◌≡◌, ◌≢◌, ◌⊎◌, refl, sym, subst, Bool, true, false, Option, none, some, ◌==◌,
  if◌then◌else◌, arith,
}
use at91_sam9x25_drivers.Prelude.Int.{ℤ, pos, negsuc}

-- The field CSIZE of `c_cflag`, CS5 being 0, and the speeds that are used.
pub data CharSize : Type 0 where
  cs5 cs7 cs8 : CharSize

pub data Speed : Type 0 where
  b0 b2400 b4800 b9600 b115200 b460800 : Speed

-- `struct termios`, by the flags of it that the program names; a flag that it does not name stays 0.
pub record Termios : Type 0 where
  pub clocal : Bool
  pub cread : Bool
  pub parenb : Bool
  pub parodd : Bool
  pub cstopb : Bool
  pub csize : CharSize
  pub inpck : Bool
  pub istrip : Bool
  pub icanon : Bool
  pub echo : Bool
  pub echoe : Bool
  pub isig : Bool
  pub opost : Bool
  pub ispeed : Speed
  pub ospeed : Speed
  pub vtime : ℕ
  pub vmin : ℕ

abbrev zeroed : Termios
zeroed = record {
  clocal = false;
  cread = false;
  parenb = false;
  parodd = false;
  cstopb = false;
  csize = cs5;
  inpck = false;
  istrip = false;
  icanon = false;
  echo = false;
  echoe = false;
  isig = false;
  opost = false;
  ispeed = b0;
  ospeed = b0;
  vtime = 0;
  vmin = 0;
}

-- The assignments before the first `switch`, from `bzero` on.
abbrev pub raw : Termios
raw = record zeroed {
  clocal = true;
  cread = true;
  csize = cs5;
  icanon = false;
  echo = false;
  echoe = false;
  isig = false;
  opost = false;
}

-- The `switch` on the number of bits; CSIZE is clear before it.
abbrev pub with_bits : (bits : ℕ) → Termios → Termios
with_bits bits t =
    if bits == 7
    then record t { csize = cs7 }
    else if bits == 8
    then record t { csize = cs8 }
    else t

-- That on the parity.
abbrev pub with_event : (event : ℕ) → Termios → Termios
with_event event t =
    if event == b'O'
    then record t { parenb = true; parodd = true; inpck = true; istrip = true }
    else if event == b'E'
    then record t { inpck = true; istrip = true; parenb = true; parodd = false }
    else if event == b'N'
    then record t { parenb = false }
    else t

-- That on the speed.
abbrev pub speed_of : (speed : ℕ) → Speed
speed_of speed =
    if speed == 2400
    then b2400
    else if speed == 4800
    then b4800
    else if speed == 9600
    then b9600
    else if speed == 115200
    then b115200
    else if speed == 460800
    then b460800
    else b9600

abbrev pub with_speed : (speed : ℕ) → Termios → Termios
with_speed speed t = record t { ispeed = speed_of speed; ospeed = speed_of speed }

abbrev pub with_stop : (stop : ℕ) → Termios → Termios
with_stop stop t =
    if stop == 1
    then record t { cstopb = false }
    else if stop == 2
    then record t { cstopb = true }
    else t

-- `tty_init`, from the results of `tcgetattr` and `tcsetattr`: its result, and the settings that it
-- asks for, `none` where it gives up before that.
unfoldable pub tty_init : (tcgetattr tcsetattr : ℤ) (speed bits event stop : ℕ) → ℤ × Option Termios
tty_init (pos zero) tcsetattr speed bits event stop =
    let t = with_stop stop (with_speed speed (with_event event (with_bits bits raw))) in
    (elim tcsetattr [ pos zero ↦ pos 0 | _ ↦ negsuc 0 ], some (record t { vtime = 1; vmin = 0 }))
tty_init _ tcsetattr speed bits event stop = (negsuc 0, none)
