-- ===== src/Ds18b20/Conversation.antt =====
-- What a read of ds18b20/ds18b20.c says on the line, in the words of the sensor's data sheet.
use at91_sam9x25_drivers.Prelude.{
  ℕ, zero, suc, ◌+◌, ◌≡◌, refl, ap, ◌∙◌, sym, Bool, true, false, not, ◌&&◌, List, [], ◌∷◌, ◌++◌,
  replicate, length, map, leb, ◌==◌, if◌then◌else◌,
}
use mathlib.Core.List.{append_assoc, append-nil}
use at91_sam9x25_drivers.Prelude.Bits.{bits}
use at91_sam9x25_drivers.Ds18b20.Touches.{settle-past}
use at91_sam9x25_drivers.Prelude.Int.{ℤ}
use at91_sam9x25_drivers.Ds18b20.{
  Event, output, input, level, wait, sense, Bus, Driver, write_slots, ds18b20_write_byte, read_slot,
  read_slots, ds18b20_read_byte, read_bytes, ds18b20_reset, reset_and_wait, ask, ds18b20_proc,
  ds18b20_read,
}

-- The steps as a sensor sees them: for how long the line is low or high, and the samplings. It is high
-- where nothing drives it. What takes no time is not seen.
pub data Seen : Type 0 where
  lasts : (low : Bool) (time : ℕ) → Seen
  sampled : Seen

abbrev pub see : (low : Bool) → List Event → List Seen
see low [] = []
see low (output pin ∷ es) = see true es
see low (level pin high ∷ es) = see (not high) es
see low (input pin ∷ es) = see false es
see low (wait n ∷ es) = lasts low n ∷ see low es
see low (sense pin ∷ es) = sampled ∷ see low es

-- A falling edge: for how long the line is low from it on, for how long it is high then, up to the next
-- one, and when it is sampled, counted from the edge, the last sampling first.
pub record Pulse : Type 0 where
  pub low : ℕ
  pub high : ℕ
  pub samplings : List ℕ

-- The pulses, of which `p` is the one that has begun.
abbrev pub pulses : Pulse → List Seen → List Pulse
pulses p [] = p ∷ []
pulses p (lasts false n ∷ es) = pulses (record p { high = p.high + n }) es
pulses p (lasts true n ∷ es) =
    let on = pulses (record p { low = p.low + n }) es in
    let next = pulses (record { low = n; high = 0; samplings = [] }) es in
    if p.high == 0 then on else p ∷ next
pulses p (sampled ∷ es) = pulses (record p { samplings = (p.low + p.high) ∷ p.samplings }) es

-- What a sensor takes a pulse for, in the data sheet's microseconds: a reset has the line low from 480
-- on. Any other pulse is a slot, of 60 at least and with 1 to recover, 61 in all: low for 60 to 120 it
-- writes a 0, for 1 to 15 it writes a 1 or, if it is sampled once and within 15 of the edge, reads a
-- bit. Any other pulse means nothing to it.
pub data Word : Type 0 where
  reset : (high : ℕ) (samplings : List ℕ) → Word
  bit : Bool → Word
  read_bit : Word
  nothing : Pulse → Word

abbrev pub slot : Pulse → Word
slot p =
    if leb 60 p.low && leb p.low 120 && (length p.samplings == 0)
    then bit false
    else if leb 1 p.low && leb p.low 15
    then elim p.samplings [
      | [] ↦ bit true
      | t ∷ [] ↦ (if leb t 15 then read_bit else nothing p)
      | _ ↦ nothing p
    ]
    else nothing p

abbrev pub word : Pulse → Word
word p =
    if leb 480 p.low
    then reset p.high p.samplings
    else if leb 61 (p.low + p.high) && leb 1 p.high
    then slot p
    else nothing p

-- What is heard of steps on a line that has been idle.
abbrev pub heard : List Event → List Word
heard es = elim (pulses (record { low = 0; high = 1; samplings = [] }) (see false es)) [
  | [] ↦ []
  | idle ∷ ps ↦ map word ps
]

-- The steps of `n` bits that are read.
abbrev bits_in : (pin : ℤ) (n : ℕ) → List Event
bits_in pin zero = []
bits_in pin (suc n) = (read_slot pin ++ sense pin ∷ wait 60 ∷ []) ++ bits_in pin n

abbrev bytes_in : (pin : ℤ) (n : ℕ) → List Event
bytes_in pin zero = []
bytes_in pin (suc n) = bits_in pin 8 ++ bytes_in pin n

-- The steps of a reset and the wait behind it.
abbrev reset_steps : ℤ → List Event
reset_steps pin =
    (output pin
      ∷ level pin true
      ∷ wait 100
      ∷ level pin false
      ∷ wait 600
      ∷ level pin true
      ∷ wait 100
      ∷ input pin
      ∷ [])
    ++ sense pin ∷ wait 100 ∷ []

-- All steps of a read.
talk : ℤ → List Event
talk pin =
    reset_steps pin
    ++ ds18b20_write_byte pin 0x33
    ++ reset_steps pin
    ++ ds18b20_write_byte pin 0xcc
    ++ ds18b20_write_byte pin 0x44
    ++ wait 100 ∷ []
    ++ reset_steps pin
    ++ ds18b20_write_byte pin 0xcc
    ++ ds18b20_write_byte pin 0xbe
    ++ bytes_in pin 9

-- The steps do not depend on what the sensor answers.
read_slots-bits_in :
    (bus : Bus) (pin : ℤ) (n byte : ℕ) (past : List Event)
    → (read_slots bus pin n byte past).1 ≡ past ++ bits_in pin n
unfolding read_slots
read_slots-bits_in bus pin zero byte past = sym (append-nil past)
read_slots-bits_in bus pin (suc n) byte past = read_slots-bits_in bus pin n _ _ ∙ simp append_assoc

read_bytes-bytes_in :
    (bus : Bus) (pin : ℤ) (n : ℕ) (past : List Event)
    → (read_bytes bus pin n past).1 ≡ past ++ bytes_in pin n
unfolding read_bytes ds18b20_read_byte
read_bytes-bytes_in bus pin zero past = sym (append-nil past)
read_bytes-bytes_in bus pin (suc n) past =
    read_bytes-bytes_in bus pin n _
    ∙ ap (λ es. es ++ bytes_in pin n) (read_slots-bits_in bus pin 8 0 past)
    ∙ append_assoc past (bits_in pin 8) (bytes_in pin n)

reset-steps :
    (bus : Bus) (pin : ℤ) (past : List Event)
    → reset_and_wait bus pin past ≡ past ++ reset_steps pin
unfolding ds18b20_reset
reset-steps bus pin past = simp append_assoc

proc-talk : (bus : Bus) (s : Driver) → (ds18b20_proc bus s).past ≡ s.past ++ talk s.pin
unfolding ds18b20_proc ask talk
proc-talk bus s = read_bytes-bytes_in bus s.pin 9 _ ∙ simp (reset-steps, append_assoc)

-- A byte on the line, the least significant bit first.
abbrev pub said : ℕ → List Word
said byte = map bit (bits 8 byte)

-- A reset as the driver makes it: the line is high for 200 microseconds before the first slot, and is
-- sampled 700 microseconds after the edge, 100 after it has risen.
abbrev pub short_reset : Word
short_reset = reset 200 (700 ∷ [])

-- READ_ROM; SKIP_ROM and CONVERT_T; SKIP_ROM, READ_SCRATCHPAD and its nine bytes.
abbrev pub conversation : List Word
conversation =
    short_reset ∷ said 0x33
    ++ short_reset ∷ said 0xcc
    ++ said 0x44
    ++ short_reset ∷ said 0xcc
    ++ said 0xbe
    ++ replicate 72 read_bit

talk-conversation : (pin : ℤ) → heard (talk pin) ≡ conversation
unfolding talk ds18b20_write_byte write_slots
talk-conversation pin = refl

-- Whatever the sensor answers and however the copy to the user goes, on an idle line a sensor hears
-- the same of every read: a reset and READ_ROM, a reset, SKIP_ROM and CONVERT_T, a reset, SKIP_ROM and
-- READ_SCRATCHPAD, and 72 bits read. Every slot of a bit has the length, the low time, the recovery and
-- the sampling of the data sheet; but each reset leaves the line high for 200 microseconds before the
-- first slot, where the data sheet has 480.
pub read-conversation :
    (bus : Bus) (copy_to_user : List ℕ → Bool) (s : Driver)
    → (es : List Event) × ((ds18b20_read bus copy_to_user s).2.past ≡ s.past ++ es)
      × (heard es ≡ conversation)
unfolding ds18b20_read
read-conversation bus copy s =
    (talk s.pin, settle-past (ds18b20_proc bus s) ∙ proc-talk bus s, talk-conversation s.pin)
