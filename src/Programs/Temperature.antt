-- ===== src/Programs/Temperature.antt =====
-- The conversion of the sensor's reading in ds18b20/ds18b20_demo.c.
use at91_sam9x25_drivers.Prelude.{
  ℕ, suc, ◌+◌, ◌-◌, ◌*◌, ◌/◌, ◌%◌, ◌≤◌, ◌<◌, ◌≡◌, refl, true, List, [], ◌∷◌, get_or, leb, ◌==◌,
  ==_iff, if◌then◌else◌, arith,
}
use at91_sam9x25_drivers.Prelude.Int.{ℤ, pos, negsuc}
use at91_sam9x25_drivers.Prelude.Bits.{all_below, all_below-true}
use Prim.Native.Nat.{bit_or}

-- `TempX_TAB`
abbrev pub tempx_tab : List ℕ
tempx_tab = 0 ∷ 1 ∷ 1 ∷ 2 ∷ 3 ∷ 3 ∷ 4 ∷ 4 ∷ 5 ∷ 6 ∷ 6 ∷ 7 ∷ 8 ∷ 8 ∷ 9 ∷ 9 ∷ []

-- The first part: the magnitude of a negative reading, with `~` the complement of a byte.
unfoldable pub magnitude : (temp_high temp_low : ℕ) → ℕ × ℕ
magnitude temp_high temp_low =
    if leb 128 temp_high
    then (let high = bit_or (255 - temp_high) 8 in
        let low = (255 - temp_low + 1) % 256 in (if low == 0 then (high + 1) % 256 else high, low))
    else (temp_high, temp_low)

unfoldable pub temp_calculate : (temp_high temp_low : ℕ) → ℕ
temp_calculate temp_high temp_low =
    let (high, low) = magnitude temp_high temp_low in
    bit_or ((high * 16 + low / 16) % 256 * 256) (get_or tempx_tab (low % 16) 0)

-- Sixteenths of a degree as degrees in the high byte and tenths, rounded, in the low byte.
abbrev pub tenths : ℕ → ℕ
tenths n = n / 16 * 256 + (10 * (n % 16) + 8) / 16

above : all_below 2001 (λ n. temp_calculate (n / 256) (n % 256) == tenths n) ≡ true
unfolding all_below temp_calculate magnitude
above = refl

below :
    all_below 881 (λ n.
      temp_calculate ((65536 - suc n) / 256) ((65536 - suc n) % 256) == 32768 + tenths (suc n))
    ≡ true
unfolding all_below temp_calculate magnitude
below = refl

-- A reading in sixteenths of a degree in two's complement of 16 bits, and what it is turned into.
abbrev pub twos_complement : ℤ → ℕ
twos_complement (pos n) = n
twos_complement (negsuc n) = 65536 - suc n

abbrev pub converted : ℤ → ℕ
converted (pos n) = tenths n
converted (negsuc n) = 32768 + tenths (suc n)

-- From -55 to 125 degrees, which is what the sensor measures.
abbrev pub IsMeasured : ℤ → Type 0
IsMeasured (pos n) = n ≤ 2000
IsMeasured (negsuc n) = n < 880

-- A reading from -55 to 125 degrees, in sixteenths of a degree and in two's complement, is turned into
-- the whole degrees and the tenths, rounded, of its magnitude, with the highest bit set below 0.
pub temp_calculate_lem :
    (t : ℤ)
    → IsMeasured t
    → temp_calculate (twos_complement t / 256) (twos_complement t % 256) ≡ converted t
temp_calculate_lem (pos n) le = (==_iff _ _).0 (all_below-true 2001 _ n above (omega arith))
temp_calculate_lem (negsuc n) lt = (==_iff _ _).0 (all_below-true 881 _ n below (omega arith))
