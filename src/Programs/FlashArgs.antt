-- ===== src/Programs/FlashArgs.antt =====
-- The arguments of flash/flash_demo.c.
use at91_sam9x25_drivers.Prelude.{
  ℕ, ◌-◌, ◌%◌, ◌≤◌, ◌<◌, ◌≡◌, Bool, true, false, Option, none, some, ltb, if◌then◌else◌, ◌||◌,
  arith,
}
use at91_sam9x25_drivers.Prelude.Int.{ℤ, pos, negsuc}

-- `a > b` for a number b
abbrev pub exceeds : ℤ → ℕ → Bool
exceeds (pos a) b = ltb b a
exceeds (negsuc a) b = false

-- `len < 1`
abbrev pub below_one : ℤ → Bool
below_one (pos a) = ltb a 1
below_one (negsuc a) = true

-- The byte that `memset` stores for an `int`.
abbrev pub low_byte : ℤ → ℕ
low_byte (pos a) = a % 256
low_byte (negsuc a) = 255 - a % 256

abbrev pub magnitude_of : ℤ → ℕ
magnitude_of (pos a) = a
magnitude_of (negsuc a) = 0

-- What `main` asks of the device, from `argc` and the results of `atoi`: an offset, a length and a
-- byte, or nothing where it returns -1.
unfoldable pub arguments : (argc : ℕ) (offset len value : ℤ) → Option (ℤ × ℕ × ℕ)
arguments argc offset len value =
    if ltb argc 4
    then none
    else if exceeds offset 125829119
    then none
    else if exceeds len 131072 || below_one len
    then none
    else if exceeds value 255
    then none
    else some (offset, magnitude_of len, low_byte value)

-- What is asked of the device is within the documented bounds, but for an offset below 0, which is
-- passed on as it is.
pub arguments-bounds :
    (argc : ℕ) (offset len value : ℤ) {at : ℤ} {n byte : ℕ}
    → arguments argc offset len value ≡ some (at, n, byte)
    → (exceeds at 125829119 ≡ false) × (1 ≤ n) × (n ≤ 131072) × (byte < 256)
unfolding arguments
arguments-bounds argc offset len value e = ground (arith, e)
