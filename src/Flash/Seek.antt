-- ===== src/Flash/Seek.antt =====
-- `at91flash_lseek` of flash/at91flash.c.
pub mod Bounds
use at91_sam9x25_drivers.Prelude.{ℕ, suc, ◌+◌, ◌-◌, leb, Option, none, some, if◌then◌else◌}
use at91_sam9x25_drivers.Prelude.Int.{ℤ, pos, negsuc, add_ℕ}
use at91_sam9x25_drivers.Kernel.{Ret, val, err, einval}
use at91_sam9x25_drivers.Flash.Board.{Board}
use at91_sam9x25_drivers.Flash.State.{Flash, Out, next, Action}

-- `SEEK_SET`, `SEEK_CUR`, `SEEK_END`, and every other `orig`
pub data Whence : Type 0 where
  seek_set seek_cur seek_end : Whence
  unknown : Whence

module _ (p : Board) where
  -- `offset >= 0 && offset <= mtd->size`, and the assignment to `file->f_pos`
  abbrev seek_to : ℤ → Action p.World Ret
  seek_to (pos n) s =
      if leb n p.size then next (val n) (record s { pos = n }) else next (err einval) s
  seek_to (negsuc _) s = next (err einval) s

  unfoldable pub lseek : ℤ → Whence → Action p.World Ret
  lseek offset Whence.seek_set s = seek_to offset s
  lseek offset Whence.seek_cur s = seek_to (add_ℕ offset s.pos) s
  lseek offset Whence.seek_end s = seek_to (add_ℕ offset p.size) s
  lseek offset Whence.unknown s = next (err einval) s
