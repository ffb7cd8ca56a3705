-- ===== src/Ds18b20/Line.antt =====
-- The signals of ds18b20/ds18b20.c carry the bytes that are written and read.
use at91_sam9x25_drivers.Prelude.{
  ℕ, zero, suc, ◌+◌, ◌/◌, ◌%◌, ◌<◌, ◌≡◌, refl, ap, ◌∙◌, Bool, true, false, Option, none, some, List,
  [], ◌∷◌, ◌++◌, length, ltb, ◌==◌, ==_iff, if◌then◌else◌, Bool-cases, inl, inr,
}
use at91_sam9x25_drivers.Prelude.Bits.{all_below, all_below-true, bits, from_bits, length-bits}
use at91_sam9x25_drivers.Prelude.Int.{ℤ}
use Prim.Native.Nat.{bit_or}
use at91_sam9x25_drivers.Ds18b20.{
  Event, output, input, level, wait, sense, Bus, write_slots, ds18b20_write_byte, read_slot,
  read_slots, ds18b20_read_byte, read_bytes,
}

-- The other end of the line, as the sensor's data sheet has it: it samples once after each falling
-- edge, here 30 microseconds later. `high` is the level of the line, `since` the time that has gone
-- by since an edge after which no sample has been taken yet.
abbrev pub samples : (high : Bool) (since : Option ℕ) → List Event → List Bool
samples high since [] = []
samples high since (level pin false ∷ es) = samples false (if high then some 0 else since) es
samples high since (level pin true ∷ es) = samples true since es
samples high none (wait n ∷ es) = samples high none es
samples high (some t) (wait n ∷ es) =
    let go_on = samples high (some (t + n)) es in
    if ltb 30 (t + n) then high ∷ samples high none es else go_on
samples high since (output pin ∷ es) = samples false (if high then some 0 else since) es
samples high since (input pin ∷ es) = samples high since es
samples high since (sense pin ∷ es) = samples high since es

samples-write_slots :
    (pin : ℤ) (n byte : ℕ) (es : List Event)
    → samples true none (write_slots pin n byte ++ es) ≡ bits n byte ++ samples true none es
unfolding write_slots
samples-write_slots pin zero byte es = refl
samples-write_slots pin (suc n) byte es = elim (Bool-cases (byte % 2 == 1)) [
  | inl e ↦ rw e (ap (λ bs. true ∷ bs) (samples-write_slots pin n (byte / 2) es))
  | inr e ↦ rw e (ap (λ bs. false ∷ bs) (samples-write_slots pin n (byte / 2) es))
]

bytes_back : all_below 256 (λ b. from_bits (bits 8 b) == b) ≡ true
unfolding all_below
bytes_back = refl

-- From an idle line the sensor samples exactly eight bits of a byte that is written, whatever
-- follows, and these are the bits of the byte, the least significant first.
pub write_byte-arrives :
    (pin : ℤ) (byte : ℕ) (es : List Event)
    → byte < 256
    → (sent : List Bool) × (samples true none (ds18b20_write_byte pin byte ++ es)
        ≡ sent ++ samples true none es)
      × (length sent ≡ 8)
      × (from_bits sent ≡ byte)
unfolding ds18b20_write_byte write_slots
write_byte-arrives pin byte es lt = (
  bits 8 byte,
  samples-write_slots pin 8 byte es,
  length-bits 8 byte,
  (==_iff _ byte).0 (all_below-true 256 (λ b. from_bits (bits 8 b) == b) byte bytes_back lt),
)

-- What the sensor answers at the `n` sensings of a byte that is read after `past`.
abbrev pub answers : Bus → ℤ → ℕ → List Event → List Bool
answers bus pin zero past = []
answers bus pin (suc n) past =
    let past1 = past ++ read_slot pin in
    bus past1 ∷ answers bus pin n (past1 ++ sense pin ∷ wait 60 ∷ [])

-- Bits shifted into a byte from the top.
abbrev shift_in : List Bool → ℕ → ℕ
shift_in [] byte = byte
shift_in (b ∷ bs) byte = shift_in bs (if b then bit_or (byte / 2) 0x80 else byte / 2)

read_slots-shift_in :
    (bus : Bus) (pin : ℤ) (n byte : ℕ) (past : List Event)
    → (read_slots bus pin n byte past).0 ≡ shift_in (answers bus pin n past) byte
unfolding read_slots
read_slots-shift_in bus pin zero byte past = refl
read_slots-shift_in bus pin (suc n) byte past = read_slots-shift_in bus pin n _ _

shifted_back : all_below 256 (λ b. shift_in (bits 8 b) 0 == b) ≡ true
unfolding all_below
shifted_back = refl

read_byte-receives :
    (bus : Bus) (pin : ℤ) (byte : ℕ) (past : List Event)
    → byte < 256
    → answers bus pin 8 past ≡ bits 8 byte
    → (ds18b20_read_byte bus pin past).0 ≡ byte
unfolding ds18b20_read_byte
read_byte-receives bus pin byte past lt e =
    read_slots-shift_in bus pin 8 0 past
    ∙ ap (λ bs. shift_in bs 0) e
    ∙ (==_iff _ byte).0 (all_below-true 256 (λ b. shift_in (bits 8 b) 0 == b) byte shifted_back lt)

-- The sensor sends these bytes one after the other, each from its least significant bit on.
abbrev pub Sends : Bus → ℤ → List ℕ → List Event → Type 0
Sends bus pin [] past = Unit
Sends bus pin (b ∷ bs) past =
    (b < 256)
    × (answers bus pin 8 past ≡ bits 8 b)
    × Sends bus pin bs (ds18b20_read_byte bus pin past).1

-- The bytes that are read are those that the sensor sends.
pub read_bytes-receives :
    (bus : Bus) (pin : ℤ) (bytes : List ℕ) (past : List Event)
    → Sends bus pin bytes past
    → (read_bytes bus pin (length bytes) past).0 ≡ bytes
unfolding read_bytes
read_bytes-receives bus pin [] past h = refl
read_bytes-receives bus pin (b ∷ bs) past (lt, e, h) =
    rw (read_byte-receives bus pin b past lt e)
      (ap (λ rest. b ∷ rest) (read_bytes-receives bus pin bs (ds18b20_read_byte bus pin past).1 h))
