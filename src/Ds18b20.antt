-- ===== src/Ds18b20.antt =====
-- The temperature sensor's driver ds18b20/ds18b20.c: the signals on its pin, the bytes that these
-- carry, and the reading that is handed to the user.
pub mod Crc
pub mod Line
pub mod Conversation
pub mod Latest
pub mod Touches
mod Tests
use at91_sam9x25_drivers.Prelude.{
  ℕ, zero, suc, ◌+◌, ◌/◌, ◌%◌, Option, Bool, true, false, List, [], ◌∷◌, ◌++◌, get_or, set, take,
  drop, ◌==◌, if◌then◌else◌,
}
use at91_sam9x25_drivers.Prelude.Int.{ℤ}
use Prim.Native.Nat.{bit_or}
use at91_sam9x25_drivers.Kernel.{Ret, val, err, eperm, efault, Ioctls}
use at91_sam9x25_drivers.Kernel.Misc.{misc_register, misc_deregister}
use at91_sam9x25_drivers.Pins.{get_port_pin}
use at91_sam9x25_drivers.Ds18b20.Crc.{crc_check}

-- What is done with the pin: `at91_set_gpio_output` with 0, so that the pin is low,
-- `at91_set_gpio_input`, `at91_set_gpio_value`, `udelay` in microseconds, and `at91_get_gpio_value`.
pub data Event : Type 0 where
  output input : ℤ → Event
  level : ℤ → Bool → Event
  wait : ℕ → Event
  sense : ℤ → Event

-- The sensor: what `at91_get_gpio_value` gives after all that was done before.
abbrev pub Bus : Type 0
Bus = List Event → Bool

-- One round of the loop of `ds18b20_write_byte`, for one bit.
abbrev pub write_slot : ℤ → Bool → List Event
write_slot pin bit =
    level pin false
    ∷ wait 1
    ∷ (if bit
        then level pin true ∷ wait 65 ∷ level pin true ∷ wait 1 ∷ []
        else wait 65 ∷ level pin true ∷ wait 1 ∷ [])

unfoldable pub write_slots : (pin : ℤ) (n byte : ℕ) → List Event
write_slots pin zero byte = []
write_slots pin (suc n) byte = write_slot pin (byte % 2 == 1) ++ write_slots pin n (byte / 2)

unfoldable pub ds18b20_write_byte : (pin : ℤ) (byte : ℕ) → List Event
ds18b20_write_byte pin byte = output pin ∷ write_slots pin 8 byte

-- The first part of a round of `ds18b20_read_byte`, up to the sensing.
abbrev pub read_slot : ℤ → List Event
read_slot pin =
    output pin
    ∷ level pin true
    ∷ wait 2
    ∷ level pin false
    ∷ wait 3
    ∷ level pin true
    ∷ input pin
    ∷ wait 5
    ∷ []

-- Its loop, for `n` more bits.
unfoldable pub read_slots : Bus → (pin : ℤ) (n byte : ℕ) → List Event → ℕ × List Event
read_slots bus pin zero byte past = (byte, past)
read_slots bus pin (suc n) byte past =
    let past1 = past ++ read_slot pin in
    let half = byte / 2 in
    read_slots bus pin n (if bus past1 then bit_or half 0x80 else half)
      (past1 ++ sense pin ∷ wait 60 ∷ [])

unfoldable pub ds18b20_read_byte : Bus → ℤ → List Event → ℕ × List Event
ds18b20_read_byte bus pin past = read_slots bus pin 8 0 past

unfoldable pub ds18b20_reset : Bus → ℤ → List Event → Ret × List Event
ds18b20_reset bus pin past =
    let past1 =
      past
      ++ output pin
        ∷ level pin true
        ∷ wait 100
        ∷ level pin false
        ∷ wait 600
        ∷ level pin true
        ∷ wait 100
        ∷ input pin
        ∷ [] in
    (if bus past1 then val 1 else val 0, past1 ++ sense pin ∷ [])

-- `for(i = 0;i < 9;i++) tmpdata[i] = ds18b20_read_byte();`, for `n` bytes
unfoldable pub read_bytes : Bus → ℤ → ℕ → List Event → List ℕ × List Event
read_bytes bus pin zero past = ([], past)
read_bytes bus pin (suc n) past =
    let (byte, past1) = ds18b20_read_byte bus pin past in
    let (rest, past2) = read_bytes bus pin n past1 in (byte ∷ rest, past2)

-- `DS18B20_PIN`, `tmpdata`, `lastdata`, and all that was done with the pins before.
pub record Driver : Type 0 where
  pub pin : ℤ
  pub tmpdata : List ℕ
  pub lastdata : List ℕ
  pub past : List Event

-- `ds18b20_reset(); udelay(100);`: the result of the reset is not looked at.
abbrev pub reset_and_wait : Bus → ℤ → List Event → List Event
reset_and_wait bus pin past = (ds18b20_reset bus pin past).1 ++ wait 100 ∷ []

-- What `ds18b20_proc` does before it reads: the commands READ_ROM, SKIP_ROM and CONVERT_T, SKIP_ROM
-- and READ_SCRATCHPAD, each after a reset.
unfoldable pub ask : Bus → ℤ → List Event → List Event
ask bus pin past =
    let p1 = reset_and_wait bus pin past ++ ds18b20_write_byte pin 0x33 in
    let p2 =
      reset_and_wait bus pin p1
      ++ ds18b20_write_byte pin 0xcc
      ++ ds18b20_write_byte pin 0x44
      ++ wait 100 ∷ [] in
    reset_and_wait bus pin p2 ++ ds18b20_write_byte pin 0xcc ++ ds18b20_write_byte pin 0xbe

unfoldable pub ds18b20_proc : Bus → Driver → Driver
ds18b20_proc bus s =
    let (bytes, past) = read_bytes bus s.pin 9 (ask bus s.pin s.past) in
    record s { tmpdata = bytes; past = past }

-- The swap of the first two bytes of `tmpdata`, and `memcpy(lastdata, tmpdata, 2)`; or the copy back
-- where the checksum is wrong.
unfoldable pub settle : Driver → Driver
settle s =
    if crc_check s.tmpdata == 0
    then (let swapped = set (set s.tmpdata 0 (get_or s.tmpdata 1 0)) 1 (get_or s.tmpdata 0 0) in
        record s { tmpdata = swapped; lastdata = take 2 swapped })
    else record s { tmpdata = s.lastdata ++ drop 2 s.tmpdata }

-- `ds18b20_read`, where `copy_to_user` tells whether the copy fails: the result, and what is copied.
unfoldable pub ds18b20_read : Bus → (copy_to_user : List ℕ → Bool) → Driver → Ret × List ℕ × Driver
ds18b20_read bus copy_to_user s =
    let s1 = settle (ds18b20_proc bus s) in
    let given = take 2 s1.tmpdata in (if copy_to_user given then err efault else val 0, given, s1)

-- `at91_ds18b20_ctl_s`
pub record Ctl : Type 0 where
  pub which_port : ℤ
  pub which_pin : ℤ

module _ (k : Ioctls) (pin_base : ℕ) where
  abbrev pub at91_ds18b20_ctl : ℕ
  at91_ds18b20_ctl = k.iowr b'D' 1 8

  -- `ds18b20_ioctl`, where `fetched` is what the argument holds once it has been copied in: whether
  -- the copy failed is not looked at.
  unfoldable pub ds18b20_ioctl : (cmd : ℕ) (fetched : Ctl) → Driver → Ret × Driver
  ds18b20_ioctl cmd fetched s =
      if cmd == at91_ds18b20_ctl
      then elim (get_port_pin pin_base fetched.which_port fetched.which_pin) [
        | ℤ.negsuc zero ↦ (err eperm, s)
        | n ↦ (val 0, record s { pin = n })
      ]
      else (val 0, s)

-- `ds18b20_init`, from the result of `misc_register`, with whether the device is registered then, and
-- `ds18b20_exit`.
unfoldable ds18b20_init : Ret → Ret × Bool
ds18b20_init ret = misc_register ret

unfoldable ds18b20_exit : (registered : Bool) → Option Bool
ds18b20_exit registered = misc_deregister registered
