-- ===== src/Flash/Search/Ready.antt =====
-- A device on which flash/at91flash.c works as it means to, and its blocks.
use at91_sam9x25_drivers.Prelude.{
  ℕ, zero, suc, ◌+◌, ◌*◌, ◌/◌, ◌^◌, ◌≤◌, ◌<◌, ◌≡◌, refl, ◌∙◌, Bool, true, Option, none, some, List,
  length, set, length-set, if◌then◌else◌, lt→ltb, Bool-cases, inl, inr, arith, div-lt, mul_mono,
}
use native.Mathlib.Nat.{mod-eq_of_lt}
use at91_sam9x25_drivers.Kernel.{is_nonzero, u32}
use at91_sam9x25_drivers.Flash.Board.{Board}
use at91_sam9x25_drivers.Flash.State.{Flash, next}
use at91_sam9x25_drivers.Flash.Blocks.{is_block_bad, set_bbt, check_block}

-- The device's size is a multiple of its block size and fits 32 bits, the table has a byte for each
-- block, and the position is at most one block past the device (`at91flash_write` may leave it
-- there).
pub record IsReady (p : Board) (s : Flash p.World) : Type 0 where
  pub block_pos : 0 < p.erasesize
  pub fits : p.size < 2 ^ 32
  pub whole : s.ebcnt * p.erasesize ≡ p.size
  pub few : s.ebcnt + 1 < 2 ^ 31
  pub table : length s.bbt ≡ s.ebcnt
  pub at : s.pos ≤ p.size + p.erasesize
  pub known : p.has_isbad ≡ true

-- The first good block among the `n` blocks from `b` on.
abbrev pub first_good : (ℕ → Bool) → ℕ → ℕ → Option ℕ
first_good bad zero b = none
first_good bad (suc n) b = if bad b then first_good bad n (b + 1) else some b

-- The table of bad blocks after the search.
abbrev pub marks : (ℕ → Bool) → ℕ → ℕ → List ℕ → List ℕ
marks bad zero b bbt = bbt
marks bad (suc n) b bbt = if bad b then marks bad n (b + 1) (set bbt b 1) else set bbt b 0

pub length-marks :
    (bad : ℕ → Bool) (n b : ℕ) (bbt : List ℕ) → length (marks bad n b bbt) ≡ length bbt
length-marks bad zero b bbt = refl
length-marks bad (suc n) b bbt = elim (Bool-cases (bad b)) [
  | inl e ↦ rw e (length-marks bad n (b + 1) (set bbt b 1) ∙ length-set bbt b 1)
  | inr e ↦ rw e (length-set bbt b 0)
]

-- What the bounds give for the block of a position.
pub u32_block :
    (b c e : ℕ)
    → b < c
    → c * e < 2 ^ 32
    → 0 < e
    → (u32 b ≡ b) × (u32 (b * e) ≡ b * e) × (u32 ((b + 1) * e) ≡ (b + 1) * e)
u32_block b c e lt fits h =
    let le : (b + 1) * e ≤ c * e = mul_mono (b + 1) c e (omega arith) in
    let le' : b ≤ b * e = grind arith in
    let le'' : b * e ≤ (b + 1) * e = mul_mono b (b + 1) e (omega arith) in
    (mod-eq_of_lt (omega arith), mod-eq_of_lt (omega arith), mod-eq_of_lt (omega arith))

module _ (p : Board) where
  -- what `block_isbad` says of block `b`
  abbrev pub is_bad : p.World → ℕ → Bool
  is_bad w b = is_nonzero (p.block_isbad w (b * p.erasesize))

  pub check_block_lem :
      (s : Flash p.World) (b : ℕ)
      → IsReady p s
      → b < s.ebcnt
      → check_block p b s
        ≡ next
            (is_bad s.world b)
            (record s { bbt = set s.bbt b (if is_bad s.world b then 1 else 0) })
  unfolding check_block is_block_bad set_bbt
  check_block_lem s b v lt =
      rw
        (
          v.known,
          (u32_block b s.ebcnt p.erasesize lt (omega arith) v.block_pos).1,
          lt→ltb b (length s.bbt) (omega arith),
        )
        refl

  -- The block of the position is at most one past the last.
  pub block_bound : (s : Flash p.World) → IsReady p s → s.pos / p.erasesize ≤ s.ebcnt + 1
  block_bound s v =
      omega (arith, div-lt s.pos (s.ebcnt + 2) p.erasesize v.block_pos (omega (arith, v.whole)))
