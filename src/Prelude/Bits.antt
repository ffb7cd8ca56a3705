-- ===== src/Prelude/Bits.antt =====
-- Bits of bytes, and checks of all bytes by computation.
use Prim.Native.Nat.{ℕ, zero, suc, ◌+◌, ◌*◌, ◌/◌, ◌%◌, ◌<◌}
use mathlib.Core.Path.{◌≡◌, refl}
use mathlib.Core.Bool.{Bool, true, ◌&&◌}
use mathlib.Core.List.{List, [], ◌∷◌}
use native.Mathlib.Omega.{arith}
use at91_sam9x25_drivers.Prelude.Tests.{◌==◌, if◌then◌else◌}
use at91_sam9x25_drivers.Prelude.Lists.{length}

-- Whether a test holds of every number below a bound.
unfoldable pub all_below : ℕ → (ℕ → Bool) → Bool
all_below zero f = true
all_below (suc n) f = f n && all_below n f

pub all_below-true : (n : ℕ) (f : ℕ → Bool) (x : ℕ) → all_below n f ≡ true → x < n → f x ≡ true
unfolding all_below
all_below-true zero f x h lt = absurd (omega arith)
all_below-true (suc n) f x h lt = ground (arith, all_below-true n f x)

-- The lowest `n` bits of a number, the least significant first, and the number of such a list.
abbrev pub bits : ℕ → ℕ → List Bool
bits zero v = []
bits (suc n) v = (v % 2 == 1) ∷ bits n (v / 2)

abbrev pub from_bits : List Bool → ℕ
from_bits [] = 0
from_bits (b ∷ bs) = (if b then 1 else 0) + 2 * from_bits bs

pub length-bits : (n v : ℕ) → length (bits n v) ≡ n
length-bits zero v = refl
length-bits (suc n) v = omega (arith, length-bits n (v / 2))
