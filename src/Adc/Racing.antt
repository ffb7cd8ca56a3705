-- ===== src/Adc/Racing.antt =====
-- `at91adc_read` of at91adc/at91adc.c with interrupts while it adds up the samples: the read and the
-- interrupt share the buffers without a lock.
pub mod Between
pub mod Bounded
pub mod Quiet
mod Tests
use at91_sam9x25_drivers.Prelude.{
  ◌>>=◌, ℕ, zero, suc, ◌+◌, ◌*◌, ◌%◌, ◌^◌, ◌≤◌, Bool, Option, none, some, List, [], ◌∷◌, length,
  get_or, ltb, ◌==◌, if◌then◌else◌, map,
}
use at91_sam9x25_drivers.Kernel.{Ret, val, err, efault}
use at91_sam9x25_drivers.Adc.{Adc, max_adcsamples, channels, at91tc0_isr, scale}

-- The buffer of channel `c`.
abbrev pub buffer : (c : ℕ) (cs : List ℕ) (bs : List (List ℕ)) → List ℕ
buffer c (x ∷ cs) (b ∷ bs) = let rest = buffer c cs bs in if c == x then b else rest
buffer c _ _ = []

-- The loads at the interrupts, the first first.
unfoldable pub interrupts : List (ℕ → ℕ) → Adc → Option Adc
interrupts [] s = some s
interrupts (chr ∷ chrs) s = do s1 ← at91tc0_isr chr s; interrupts chrs s1

-- A load behind the end of a buffer is a fault, `none`.
unfoldable pub load : (j : ℕ) → List ℕ → Option ℕ
load j buf = if ltb j (length buf) then some (get_or buf j 0) else none

-- The interrupts before the load of sample `j` of channel `c`.
abbrev pub During : Type 0
During = (j c : ℕ) → List (ℕ → ℕ)

-- One round of the loop of `at91adc_read`: `data_add += at91adc_pbuf[j]` for the channels `cs`, which
-- have the sums `ds`.
unfoldable pub add_row : During → (j : ℕ) (cs ds : List ℕ) → Adc → Option (List ℕ × Adc)
add_row during j (c ∷ cs) (d ∷ ds) s = do
  s1 ← interrupts (during j c) s
  v ← load j (buffer c channels s1.bufs)
  rest ← add_row during j cs ds s1
  some ((d + v) % 2 ^ 32 ∷ rest.0, rest.1)
add_row during j _ _ s = some ([], s)

-- `n` rounds from index `j` on.
unfoldable pub add_rows : During → (n j : ℕ) (ds : List ℕ) → Adc → Option (List ℕ × Adc)
add_rows during zero j ds s = some (ds, s)
add_rows during (suc n) j ds s = do
  row ← add_row during j channels ds s
  add_rows during n (j + 1) row.0 row.1

-- `at91adc_read`, as in Adc, but with interrupts.
unfoldable pub at91adc_read :
    During → (copy_to_user : List ℕ → Bool) (bufsize : ℕ) → Adc → Option ((Ret × List ℕ) × Adc)
at91adc_read during copy_to_user bufsize s = do
  sums ← add_rows during max_adcsamples 0 (map (λ _. 0) channels) s
  let at91adc_buf = map scale sums.0
  some ((if copy_to_user at91adc_buf then err efault else val 0, at91adc_buf), sums.1)
