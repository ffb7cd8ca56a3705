-- ===== src/Programs/Memory.antt =====
-- The memory of the programs that test the flash, NAND_FLASH_test of hwtest/hwtest.c and
-- flash/flash_demo.c.
pub mod Serves
use at91_sam9x25_drivers.Prelude.{ℕ, Bool, Option, List, region}
use at91_sam9x25_drivers.Flash.Board.{Board}
use at91_sam9x25_drivers.Flash.State.{Flash, next, Action}
use at91_sam9x25_drivers.Flash.Ioctl.{FlashData}

-- The program's memory, beside what the board has of it: a byte of it, `memset` of an address, a
-- value and a length, and the two copies of the ioctl's argument.
pub record Memory (p : Board) : Type 0 where
  pub peek : p.World → ℕ → ℕ
  pub memset : p.World → (a value len : ℕ) → p.World
  pub fetch : p.World → Option FlashData
  pub put_back : p.World → FlashData → Bool × p.World

module _ (p : Board) (m : Memory p) where
  -- `memset(flashdata, value, len)`
  unfoldable pub set_data : (flashdata value len : ℕ) → Action p.World (Unit {0})
  set_data flashdata value len s =
      next tt (record s { world = m.memset s.world flashdata value len })

  -- What a loop of `printf` calls shows.
  unfoldable pub shown_data : (flashdata len : ℕ) → Action p.World (List ℕ)
  shown_data flashdata len s = next (region (m.peek s.world) flashdata len) s
