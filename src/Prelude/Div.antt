-- ===== src/Prelude/Div.antt =====
-- Division by an unknown: the block of an address.
use Prim.Native.Nat.{ℕ, ◌+◌, ◌*◌, ◌/◌, ◌%◌, ◌≤◌, ◌<◌}
use mathlib.Core.Path.{◌≡◌}
use native.Mathlib.Nat.{mul-mod_left}
use native.Mathlib.Omega.{arith}

pub div-lt : (a c e : ℕ) → 0 < e → a < c * e → a / e < c
div-lt a c e h lt = grind arith

pub mul-div_self : (k e : ℕ) → 0 < e → k * e / e ≡ k
mul-div_self k e h = grind arith

pub mul-mod_self : (k e : ℕ) → k * e % e ≡ 0
mul-mod_self k e = mul-mod_left k e

pub div_bounds : (a e : ℕ) → 0 < e → (a / e * e ≤ a) × (a < (a / e + 1) * e)
div_bounds a e h = grind arith

pub mul_mono : (a b e : ℕ) → a ≤ b → a * e ≤ b * e
mul_mono a b e h = grind arith

pub mul-lt_of_mul : (a c e : ℕ) → a * e < c * e → a < c
mul-lt_of_mul a c e lt = grind arith
