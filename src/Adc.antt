-- ===== src/Adc.antt =====
-- The converter driver at91adc/at91adc.c: its ring buffers, the interrupt that fills them, and the
-- read that averages them.
pub mod Ring
pub mod Average
pub mod Load
pub mod Registers
pub mod Converter
pub mod Device
pub mod Store
pub mod Original
pub mod Racing
mod Tests
use at91_sam9x25_drivers.Prelude.{
  ◌>>=◌, ℕ, zero, suc, ◌+◌, ◌*◌, ◌/◌, ◌%◌, ◌^◌, Bool, Option, none, some, List, [], ◌∷◌, length,
  get_or, set, replicate, ltb, leb, if◌then◌else◌, map,
}
use at91_sam9x25_drivers.Adc.Store.{store}
use at91_sam9x25_drivers.Kernel.{Ret, val, err, efault}

abbrev pub max_adcsamples : ℕ
max_adcsamples = 16384

-- The channels that have a buffer, `at91adc_pbuf0` to `at91adc_pbuf11` without the fifth.
abbrev pub channels : List ℕ
channels = 0 ∷ 1 ∷ 2 ∷ 3 ∷ 4 ∷ 6 ∷ 7 ∷ 8 ∷ 9 ∷ 10 ∷ 11 ∷ []

-- The buffers, in the order of `channels`, and `at91adc_appidx`.
pub record Adc : Type 0 where
  pub bufs : List (List ℕ)
  pub appidx : ℕ

-- The eleven stores of the interrupt; `chr c` is what `AT91_ADC_CHR(c)` reads, and `& 0x3ff` is the
-- remainder by 1024.
unfoldable pub sample : (chr : ℕ → ℕ) (at : ℕ) → List ℕ → List (List ℕ) → Option (List (List ℕ))
sample chr at (c ∷ cs) (b ∷ bs) = do
  b' ← store at (chr c % 1024) b
  bs' ← sample chr at cs bs
  some (b' ∷ bs')
sample chr at _ _ = some []

-- `at91tc0_isr`: `at91adc_appidx` is an `unsigned short`.
unfoldable pub at91tc0_isr : (chr : ℕ → ℕ) → Adc → Option Adc
at91tc0_isr chr s = do
  bufs ← sample chr s.appidx channels s.bufs
  let next = (s.appidx + 1) % 2 ^ 16
  some (record { bufs = bufs; appidx = if leb max_adcsamples next then 0 else next })

-- The loop of `at91adc_read` for one channel, from index `j` on for `n` samples. The sum is an
-- `unsigned int`; a load behind the end is a fault.
unfoldable pub add_up : (n j : ℕ) (buf : List ℕ) (data_add : ℕ) → Option ℕ
add_up zero j buf data_add = some data_add
add_up (suc n) j buf data_add =
    let rest = add_up n (j + 1) buf ((data_add + get_or buf j 0) % 2 ^ 32) in
    if ltb j (length buf) then rest else none

-- `at91adc_buf[i] = data_add >> 14; at91adc_buf[i] &= 0x3ff;`
abbrev pub scale : ℕ → ℕ
scale data_add = (data_add / 2 ^ 14) % 2 ^ 16 % 1024

-- The values of the channels, one for each.
unfoldable pub averages : List (List ℕ) → Option (List ℕ)
averages [] = some []
averages (b ∷ bs) = do
  data_add ← add_up max_adcsamples 0 b 0
  rest ← averages bs
  some (scale data_add ∷ rest)

-- `at91adc_read`, where `copy_to_user` tells whether the copy fails: the result, and what is copied.
-- The size that the user asks for is not looked at.
unfoldable pub at91adc_read :
    (copy_to_user : List ℕ → Bool) (bufsize : ℕ) → Adc → Option (Ret × List ℕ)
at91adc_read copy_to_user bufsize s = do
  at91adc_buf ← averages s.bufs
  some (if copy_to_user at91adc_buf then err efault else val 0, at91adc_buf)

-- The buffers as `at91adc_init` leaves them.
unfoldable pub cleared : Adc
cleared = record { bufs = map (λ _. replicate max_adcsamples 0) channels; appidx = 0 }

-- The driver after the interrupts at which the converter held `chrs`, the last first.
unfoldable pub after : List (ℕ → ℕ) → Option Adc
after [] = some cleared
after (chr ∷ chrs) = do s ← after chrs; at91tc0_isr chr s
