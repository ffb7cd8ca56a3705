-- ===== src/Adc/Store.antt =====
-- A store into a ring buffer, as at91adc/at91adc.c and the driver that it was made from do it.
use at91_sam9x25_drivers.Prelude.{ℕ, Option, none, some, List, length, set, ltb, if◌then◌else◌}

-- `buf[at] = v`: a store behind the end is a fault, `none`.
unfoldable pub store : (at v : ℕ) → List ℕ → Option (List ℕ)
store at v buf = if ltb at (length buf) then some (set buf at v) else none
