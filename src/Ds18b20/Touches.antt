-- ===== src/Ds18b20/Touches.antt =====
-- Which pins ds18b20/ds18b20.c drives.
use at91_sam9x25_drivers.Prelude.{
  ==_self, ℕ, zero, suc, ◌+◌, ◌*◌, ◌/◌, ◌%◌, ◌<◌, ◌≡◌, refl, sym, ap, ◌∙◌, Bool, List, [], ◌∷◌,
  ◌++◌, ◌==◌, Bool-cases, inl, inr,
}
use mathlib.Core.List.{append_assoc, append-nil}
use at91_sam9x25_drivers.Prelude.Int.{ℤ, pos}
use at91_sam9x25_drivers.Kernel.{val, Ioctls}
use at91_sam9x25_drivers.Pins.Numbers.{get_port_pin_lem}
use at91_sam9x25_drivers.Ds18b20.{
  Event, output, input, level, wait, sense, Bus, Driver, write_slots, ds18b20_write_byte, read_slot,
  read_slots, ds18b20_read_byte, read_bytes, ds18b20_reset, reset_and_wait, ask, ds18b20_proc,
  settle, ds18b20_read, ds18b20_ioctl, at91_ds18b20_ctl,
}
use at91_sam9x25_drivers.Ds18b20.Crc.{crc_check}

-- Every step is on the pin.
abbrev pub AreOn : ℤ → List Event → Type 0
AreOn pin [] = Unit
AreOn pin (output n ∷ es) = (n ≡ pin) × AreOn pin es
AreOn pin (input n ∷ es) = (n ≡ pin) × AreOn pin es
AreOn pin (level n v ∷ es) = (n ≡ pin) × AreOn pin es
AreOn pin (wait t ∷ es) = AreOn pin es
AreOn pin (sense n ∷ es) = (n ≡ pin) × AreOn pin es

append-AreOn : (pin : ℤ) (es fs : List Event) → AreOn pin es → AreOn pin fs → AreOn pin (es ++ fs)
append-AreOn pin [] fs h h' = h'
append-AreOn pin (output n ∷ es) fs (e, h) h' = (e, append-AreOn pin es fs h h')
append-AreOn pin (input n ∷ es) fs (e, h) h' = (e, append-AreOn pin es fs h h')
append-AreOn pin (level n v ∷ es) fs (e, h) h' = (e, append-AreOn pin es fs h h')
append-AreOn pin (wait t ∷ es) fs h h' = append-AreOn pin es fs h h'
append-AreOn pin (sense n ∷ es) fs (e, h) h' = (e, append-AreOn pin es fs h h')

-- What comes after `past` is steps on the pin.
abbrev pub Adds : ℤ → List Event → List Event → Type 0
Adds pin past past' = (es : List Event) × (past' ≡ past ++ es) × AreOn pin es

more :
    (pin : ℤ) (past past' : List Event) (es : List Event)
    → Adds pin past past'
    → AreOn pin es
    → Adds pin past (past' ++ es)
more pin past past' es (fs, e, h) h' =
    (fs ++ es, ap (λ l. l ++ es) e ∙ append_assoc past fs es, append-AreOn pin fs es h h')

none_yet : (pin : ℤ) (past : List Event) → Adds pin past past
none_yet pin past = ([], sym (append-nil past), tt)

write_slots-AreOn : (pin : ℤ) (n byte : ℕ) → AreOn pin (write_slots pin n byte)
unfolding write_slots
write_slots-AreOn pin zero byte = tt
write_slots-AreOn pin (suc n) byte = elim (Bool-cases (byte % 2 == 1)) [
  | inl e ↦ rw e (refl, (refl, (refl, write_slots-AreOn pin n (byte / 2))))
  | inr e ↦ rw e (refl, (refl, write_slots-AreOn pin n (byte / 2)))
]

write_byte-AreOn : (pin : ℤ) (byte : ℕ) → AreOn pin (ds18b20_write_byte pin byte)
unfolding ds18b20_write_byte
write_byte-AreOn pin byte = (refl, write_slots-AreOn pin 8 byte)

module _ (bus : Bus) (pin : ℤ) (past : List Event) where
  read_slots-Adds :
      (n byte : ℕ) (past' : List Event)
      → Adds pin past past'
      → Adds pin past (read_slots bus pin n byte past').1
  unfolding read_slots
  read_slots-Adds zero byte past' h = h
  read_slots-Adds (suc n) byte past' h = read_slots-Adds n _ _ (
      more pin past _ (sense pin ∷ wait 60 ∷ [])
        (more pin past past' (read_slot pin) h (refl, (refl, (refl, (refl, (refl, tt))))))
        (refl, tt))

  read_bytes-Adds :
      (n : ℕ) (past' : List Event)
      → Adds pin past past'
      → Adds pin past (read_bytes bus pin n past').1
  unfolding read_bytes ds18b20_read_byte
  read_bytes-Adds zero past' h = h
  read_bytes-Adds (suc n) past' h = read_bytes-Adds n _ (read_slots-Adds 8 0 past' h)

  reset-Adds :
      (past' : List Event) → Adds pin past past' → Adds pin past (reset_and_wait bus pin past')
  unfolding ds18b20_reset
  reset-Adds past' h =
      more pin past _ (wait 100 ∷ [])
        (more pin past _ (sense pin ∷ [])
          (more pin past past' _ h (refl, (refl, (refl, (refl, (refl, tt)))))) (refl, tt))
        tt

  wrote :
      (byte : ℕ) (past' : List Event)
      → Adds pin past past'
      → Adds pin past (past' ++ ds18b20_write_byte pin byte)
  wrote byte past' h =
      more pin past past' (ds18b20_write_byte pin byte) h (write_byte-AreOn pin byte)

  ask-Adds : Adds pin past (ask bus pin past)
  unfolding ask
  ask-Adds =
      let h1 = wrote 0x33 _ (reset-Adds past (none_yet pin past)) in
      let h2 = wrote 0x44 _ (wrote 0xcc _ (reset-Adds _ h1)) in
      wrote 0xbe _ (wrote 0xcc _ (reset-Adds _ (more pin past _ (wait 100 ∷ []) h2 tt)))

pub settle-past : (s : Driver) → (settle s).past ≡ s.past
unfolding settle
settle-past s = elim (Bool-cases (crc_check s.tmpdata == 0)) [
  | inl e ↦ rw e refl
  | inr e ↦ rw e refl
]

read-Adds :
    (bus : Bus) (copy_to_user : List ℕ → Bool) (s : Driver)
    → Adds s.pin s.past (ds18b20_read bus copy_to_user s).2.past
unfolding ds18b20_read ds18b20_proc
read-Adds bus copy s =
    let (es, e, h) =
      read_bytes-Adds bus s.pin s.past 9 (ask bus s.pin s.past) (ask-Adds bus s.pin s.past) in
    (es, settle-past (ds18b20_proc bus s) ∙ e, h)

-- After AT91_DS18B20_CTL for a pin of one of the four ports, which returns 0, a read drives and senses
-- no pin but this one.
pub ctl-read :
    (k : Ioctls) (base port n : ℕ) (bus : Bus) (copy_to_user : List ℕ → Bool) (s : Driver)
    → port < 4
    → (s1 : Driver) × (es : List Event) × (ds18b20_ioctl k base
          (at91_ds18b20_ctl k base)
          (record { which_port = pos port; which_pin = pos n })
          s
        ≡ (val 0, s1))
      × ((ds18b20_read bus copy_to_user s1).2.past ≡ s.past ++ es)
      × AreOn (pos (n + (base + 32 * port))) es
unfolding ds18b20_ioctl
ctl-read k base port n bus copy s lt =
    let s1 = record s { pin = pos (n + (base + 32 * port)) } in
    let (es, e, h) = read-Adds bus copy s1 in
    (s1, es, rw (==_self (at91_ds18b20_ctl k base), get_port_pin_lem base port n lt) refl, e, h)
