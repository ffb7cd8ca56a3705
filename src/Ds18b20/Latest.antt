-- ===== src/Ds18b20/Latest.antt =====
-- What reads of ds18b20/ds18b20.c hand to the user, one after another.
use at91_sam9x25_drivers.Prelude.{
  ℕ, zero, suc, ◌≡◌, refl, sym, ap, ◌∙◌, Bool, true, false, List, [], ◌∷◌, ◌++◌, length, get_or,
  set, take, drop, replicate, ◌==◌, if◌then◌else◌, Bool-cases, inl, inr, arith,
}
use at91_sam9x25_drivers.Prelude.Int.{ℤ}
use at91_sam9x25_drivers.Kernel.{val, err, efault}
use at91_sam9x25_drivers.Ds18b20.{
  Event, Bus, Driver, read_bytes, ask, ds18b20_proc, settle, ds18b20_read, ds18b20_read_byte,
  read_slots,
}
use at91_sam9x25_drivers.Ds18b20.Crc.{crc_check, crc_from, crc_step, crc_table}
use at91_sam9x25_drivers.Ds18b20.Line.{Sends, read_bytes-receives}

-- The reading of the latest scratchpad that passes its check, the high byte first; two zeros before
-- the first. The list has the latest first.
abbrev pub latest : List (List ℕ) → List ℕ
latest [] = 0 ∷ 0 ∷ []
latest (d ∷ ds) = if crc_check d == 0 then get_or d 1 0 ∷ get_or d 0 0 ∷ [] else latest ds

-- The driver as it is loaded and after `n` reads, and the scratchpads that these got.
abbrev pub loaded : ℤ → Driver
loaded pin = record { pin = pin; tmpdata = replicate 9 0; lastdata = 0 ∷ 0 ∷ []; past = [] }

module _ (bus : Bus) (copy_to_user : List ℕ → Bool) (pin : ℤ) where
  unfoldable pub reads : ℕ → Driver
  reads zero = loaded pin
  reads (suc n) = (ds18b20_read bus copy_to_user (reads n)).2

  abbrev pub pads : ℕ → List (List ℕ)
  pads zero = []
  pads (suc n) = (ds18b20_proc bus (reads n)).tmpdata ∷ pads n

length-read_bytes :
    (bus : Bus) (pin : ℤ) (n : ℕ) (past : List Event) → length (read_bytes bus pin n past).0 ≡ n
unfolding read_bytes
length-read_bytes bus pin zero past = refl
length-read_bytes bus pin (suc n) past = ap suc (length-read_bytes bus pin n _)

-- The first two bytes swapped.
take-swap :
    (d : List ℕ)
    → length d ≡ 9
    → take 2 (set (set d 0 (get_or d 1 0)) 1 (get_or d 0 0)) ≡ get_or d 1 0 ∷ get_or d 0 0 ∷ []
take-swap [] e = absurd (omega arith)
take-swap (a ∷ []) e = absurd (omega arith)
take-swap (a ∷ b ∷ d) e = refl

take_pair : (l r : List ℕ) → length l ≡ 2 → take 2 (l ++ r) ≡ l
take_pair [] r e = absurd (omega arith)
take_pair (a ∷ []) r e = absurd (omega arith)
take_pair (a ∷ b ∷ []) r e = refl
take_pair (a ∷ b ∷ c ∷ l) r e = absurd (omega arith)

length-latest : (ds : List (List ℕ)) → length (latest ds) ≡ 2
length-latest [] = refl
length-latest (d ∷ ds) = elim (Bool-cases (crc_check d == 0)) [
  | inl e ↦ rw e refl
  | inr e ↦ rw e (length-latest ds)
]

settle-latest :
    (s : Driver) (ds : List (List ℕ))
    → length s.tmpdata ≡ 9
    → s.lastdata ≡ latest ds
    → ((settle s).lastdata ≡ latest (s.tmpdata ∷ ds))
      × (take 2 (settle s).tmpdata ≡ latest (s.tmpdata ∷ ds))
unfolding settle
settle-latest s ds len last = elim (Bool-cases (crc_check s.tmpdata == 0)) [
  | inl e ↦ rw e (take-swap s.tmpdata len, take-swap s.tmpdata len)
  | inr e ↦
      rw e
        (last, take_pair s.lastdata (drop 2 s.tmpdata) (ap length last ∙ length-latest ds) ∙ last)
]

module _ (bus : Bus) (copy_to_user : List ℕ → Bool) (pin : ℤ) where
  proc-length : (s : Driver) → length (ds18b20_proc bus s).tmpdata ≡ 9
  unfolding ds18b20_proc
  proc-length s = length-read_bytes bus s.pin 9 (ask bus s.pin s.past)

  proc-lastdata : (s : Driver) → (ds18b20_proc bus s).lastdata ≡ s.lastdata
  unfolding ds18b20_proc
  proc-lastdata s = refl

  lastdata-latest :
      (n : ℕ) → (reads bus copy_to_user pin n).lastdata ≡ latest (pads bus copy_to_user pin n)
  unfolding reads ds18b20_read
  lastdata-latest zero = refl
  lastdata-latest (suc n) =
      let s = reads bus copy_to_user pin n in
      (settle-latest (ds18b20_proc bus s) (pads bus copy_to_user pin n) (proc-length s)
        (proc-lastdata s ∙ lastdata-latest n)).0

  -- However the sensor answers, each read since the driver was loaded copies to the user the reading
  -- of the latest scratchpad that passed its check, this read's own included, or two zeros while
  -- none has; it returns 0 if the copy succeeds.
  pub reads-latest :
      (n : ℕ)
      → ds18b20_read bus copy_to_user (reads bus copy_to_user pin n) ≡ (
        if copy_to_user (latest (pads bus copy_to_user pin (suc n))) then err efault else val 0,
        latest (pads bus copy_to_user pin (suc n)),
        reads bus copy_to_user pin (suc n),
      )
  unfolding reads ds18b20_read
  reads-latest n =
      let s = reads bus copy_to_user pin n in
      ap (λ g. (if copy_to_user g then err efault else val 0, g, settle (ds18b20_proc bus s)))
        (settle-latest (ds18b20_proc bus s) (pads bus copy_to_user pin n) (proc-length s)
          (proc-lastdata s ∙ lastdata-latest n)).1

  -- A sensor that, once asked, sends nine bytes which pass the check has its reading reported, the
  -- high byte first.
  pub read-reports :
      (s : Driver) (low high : ℕ) (rest : List ℕ)
      → length rest ≡ 7
      → Sends bus s.pin (low ∷ high ∷ rest) (ask bus s.pin s.past)
      → crc_check (low ∷ high ∷ rest) ≡ 0
      → (ds18b20_read bus copy_to_user s).1 ≡ high ∷ low ∷ []
  unfolding ds18b20_read settle ds18b20_proc
  read-reports s low high rest len sends passes = reported _ all passes
    where
      all : (read_bytes bus s.pin 9 (ask bus s.pin s.past)).0 ≡ low ∷ high ∷ rest
      all =
          ap (λ n. (read_bytes bus s.pin (suc (suc n)) (ask bus s.pin s.past)).0) (sym len)
          ∙ read_bytes-receives bus s.pin (low ∷ high ∷ rest) (ask bus s.pin s.past) sends

      reported :
          (d : List ℕ)
          → d ≡ low ∷ high ∷ rest
          → crc_check (low ∷ high ∷ rest) ≡ 0
          → take 2 (settle (record (ds18b20_proc bus s) { tmpdata = d })).tmpdata ≡ high ∷ low ∷ []
      reported d e zero_sum = rw (e, zero_sum) refl

-- Where no sensor answers and the line stays high, the read still returns 0 if the copy succeeds,
-- and hands out the old reading: neither the failed resets nor the nine bytes of 0xff are an error.
absent-unnoticed :
    (copy_to_user : List ℕ → Bool) (s : Driver)
    → length s.lastdata ≡ 2
    → copy_to_user s.lastdata ≡ false
    → ((ds18b20_read (λ _. true) copy_to_user s).0 ≡ val 0)
      × ((ds18b20_read (λ _. true) copy_to_user s).1 ≡ s.lastdata)
unfolding ds18b20_read settle ds18b20_proc read_bytes ds18b20_read_byte read_slots crc_check
    crc_from crc_step crc_table
absent-unnoticed copy s two ok =
    let old = take_pair s.lastdata (drop 2 (replicate 9 255)) two in
    (ap (λ g. if copy g then err efault else val 0) old ∙ rw ok refl, old)
