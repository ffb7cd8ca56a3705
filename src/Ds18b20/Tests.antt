-- ===== src/Ds18b20/Tests.antt =====
-- The theorems about the temperature sensor with a scratchpad of 85 degrees.
use at91_sam9x25_drivers.Prelude.{
  ℕ, suc, ◌≡◌, ◌≢◌, refl, Bool, true, false, List, [], ◌∷◌, ◌++◌, get_or, arith,
}
use at91_sam9x25_drivers.Prelude.Bits.{bits}
use at91_sam9x25_drivers.Prelude.Int.{pos}
use at91_sam9x25_drivers.Kernel.Plain.{plain}
use at91_sam9x25_drivers.Kernel.{val}
use at91_sam9x25_drivers.Ds18b20.{
  Event, sense, Bus, ds18b20_read, Driver, ds18b20_ioctl, at91_ds18b20_ctl,
}
use at91_sam9x25_drivers.Ds18b20.Crc.{crc_check, crc_from, crc_step, crc_table}
use at91_sam9x25_drivers.Ds18b20.Crc.Detects.{crc8_from, crc_check-bitwise, crc_check-detects}
use at91_sam9x25_drivers.Ds18b20.Latest.{latest, loaded, reads, pads, reads-latest}
use at91_sam9x25_drivers.Ds18b20.Touches.{AreOn, ctl-read}
use at91_sam9x25_drivers.Ds18b20.Conversation.{heard, conversation, read-conversation}

abbrev scratchpad : List ℕ
scratchpad = 0x50 ∷ 0x05 ∷ 0x4b ∷ 0x46 ∷ 0x7f ∷ 0xff ∷ 0x0c ∷ 0x10 ∷ 0x1c ∷ []

-- How often the line has been sensed.
abbrev sensed : List Event → ℕ
sensed [] = 0
sensed (sense pin ∷ es) = suc (sensed es)
sensed (e ∷ es) = sensed es

abbrev bits_of : List ℕ → List Bool
bits_of [] = []
bits_of (b ∷ bs) = bits 8 b ++ bits_of bs

-- A sensor that answers the three resets and then sends its scratchpad.
abbrev sensor : Bus
sensor past = get_or (false ∷ false ∷ false ∷ bits_of scratchpad) (sensed past) true

abbrev eager : Bus
eager past = get_or (bits_of scratchpad) (sensed past) true

crc_check-bitwise_example : crc_check scratchpad ≡ crc8_from 0 scratchpad
crc_check-bitwise_example = crc_check-bitwise scratchpad (
  omega arith,
  (
    omega arith,
    (
      omega arith,
      (omega arith, (omega arith, (omega arith, (omega arith, (omega arith, (omega arith, tt)))))),
    ),
  ),
)

crc_check-detects_example :
    crc_check (0x50 ∷ 0x06 ∷ 0x4b ∷ 0x46 ∷ 0x7f ∷ 0xff ∷ 0x0c ∷ 0x10 ∷ 0x1c ∷ []) ≢ 0
unfolding crc_check crc_from crc_step crc_table
crc_check-detects_example =
    crc_check-detects (0x50 ∷ []) (0x4b ∷ 0x46 ∷ 0x7f ∷ 0xff ∷ 0x0c ∷ 0x10 ∷ 0x1c ∷ []) 0x05 0x06
      (omega arith, tt)
      (
        omega arith,
        (
          omega arith,
          (omega arith, (omega arith, (omega arith, (omega arith, (omega arith, tt))))),
        ),
      )
      (omega arith) (omega arith) (λ e. absurd (omega (arith, e))) refl

reads-latest_example :
    ds18b20_read sensor (λ _. false) (reads sensor (λ _. false) (pos 36) 1)
    ≡ (val 0, latest (pads sensor (λ _. false) (pos 36) 2), reads sensor (λ _. false) (pos 36) 2)
reads-latest_example = reads-latest sensor (λ _. false) (pos 36) 1

ctl-read_example :
    (s1 : Driver) × (es : List Event) × (ds18b20_ioctl plain 32
        (at91_ds18b20_ctl plain 32)
        (record { which_port = pos 0; which_pin = pos 4 })
        (loaded (pos 0))
      ≡ (val 0, s1))
    × ((ds18b20_read sensor (λ _. false) s1).2.past ≡ [] ++ es)
    × AreOn (pos 36) es
ctl-read_example = ctl-read plain 32 0 4 sensor (λ _. false) (loaded (pos 0)) (omega arith)

-- Nothing on the line.
read-conversation_example :
    (es : List Event) × ((ds18b20_read (λ _. true) (λ _. false) (loaded (pos 36))).2.past
      ≡ [] ++ es)
    × (heard es ≡ conversation)
read-conversation_example = read-conversation (λ _. true) (λ _. false) (loaded (pos 36))
