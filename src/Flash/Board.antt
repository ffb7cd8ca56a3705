-- ===== src/Flash/Board.antt =====
-- What flash/at91flash.c calls and does not implement: the MTD layer below it (`struct mtd_info`),
-- the kernel's allocator and the copies from and to user memory.
use at91_sam9x25_drivers.Prelude.{ℕ, ◌+◌, ◌≤◌, ◌≡◌, Bool, Option, some, List, length}
use at91_sam9x25_drivers.Kernel.{Ret}

-- `World` is all that lies outside the driver: the chip, the user's memory, the kernel's heap.
pub record Board : Type 1 where
  pub World : Type 0
  -- `mtd->size`, `mtd->erasesize`, `mtd->writesize`, and whether `mtd->type == MTD_NANDFLASH`
  pub size : ℕ
  pub erasesize : ℕ
  pub writesize : ℕ
  pub is_nand : Bool
  -- whether `mtd->block_isbad != NULL`, and its call at an address
  pub has_isbad : Bool
  pub block_isbad : World → ℕ → Ret
  -- `mtd->read` at an address, of a length: its result, and the `*retlen` bytes that it stored
  pub mtd_read : World → ℕ → ℕ → Ret × List ℕ
  -- `mtd->write` of bytes at an address: its result and `*retlen`
  pub mtd_write : World → ℕ → List ℕ → Ret × ℕ × World
  -- `mtd->erase` at an address, of a length: its result, and whether `ei.state` is MTD_ERASE_FAILED
  pub mtd_erase : World → ℕ → ℕ → Ret × Bool × World
  -- `kmalloc` of a size: the bytes that the memory happens to hold, or NULL
  pub kmalloc : World → ℕ → Option (List ℕ)
  -- `copy_to_user` to an address: whether the result is not 0
  pub copy_to_user : World → ℕ → List ℕ → Bool × World
  -- `copy_from_user` from an address, of a length: the bytes, or `none` if the result is not 0
  pub copy_from_user : World → ℕ → ℕ → Option (List ℕ)

-- The documented sizes: an allocation has the size asked for, a read stores no more than was asked
-- for and nothing from behind the end of the device, and a copy that
-- succeeds copies all; a write stores no more than it was given.
pub record IsSized (p : Board) : Type 0 where
  pub kmalloc_size : (w : p.World) (n : ℕ) {b : List ℕ} → p.kmalloc w n ≡ some b → length b ≡ n
  pub read_size : (w : p.World) (a n : ℕ) → length (p.mtd_read w a n).1 ≤ n
  pub read_inside : (w : p.World) (a n : ℕ) → a ≤ p.size → a + length (p.mtd_read w a n).1 ≤ p.size
  pub write_size : (w : p.World) (a : ℕ) (b : List ℕ) → (p.mtd_write w a b).1 ≤ length b
  pub copy_size :
      (w : p.World) (a n : ℕ) {b : List ℕ} → p.copy_from_user w a n ≡ some b → length b ≡ n
