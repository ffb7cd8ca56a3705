-- ===== src/Flash/Tape.antt =====
-- The device as its users see it: the bytes of its good blocks, one after another. The search loops
-- of flash/at91flash.c are to hide the bad ones.
pub mod Laws
pub mod Reads
pub mod Stores
use at91_sam9x25_drivers.Prelude.{
  ℕ, zero, suc, ◌+◌, ◌-◌, ◌*◌, ◌/◌, ◌%◌, Bool, List, [], ◌++◌, region, if◌then◌else◌,
}
use at91_sam9x25_drivers.Flash.Board.{Board}
use at91_sam9x25_drivers.Flash.Chip.{IsHealthy}
use at91_sam9x25_drivers.Flash.State.{Flash}
use at91_sam9x25_drivers.Flash.Search.Ready.{is_bad}

module _ (bad : ℕ → Bool) (cell : ℕ → ℕ) (e : ℕ) where
  -- The bytes of the good ones of the `n` blocks from `b` on, of block `b` only from offset `off`.
  abbrev pub tape : (n b off : ℕ) → List ℕ
  tape zero b off = []
  tape (suc n) b off =
      (if bad b then [] else region cell (b * e + off) (e - off)) ++ tape n (b + 1) 0

  -- The bytes from the position `at` on, on a device of `c` blocks.
  abbrev pub tape_from : (c at : ℕ) → List ℕ
  tape_from c at = tape (c - at / e) (at / e) (at % e)

-- What is left to read from the position of the open file.
abbrev pub remaining : (p : Board) (h : IsHealthy p) → Flash p.World → List ℕ
remaining p h s = tape_from (is_bad p s.world) (h.cell s.world) p.erasesize s.ebcnt s.pos
