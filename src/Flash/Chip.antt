-- ===== src/Flash/Chip.antt =====
-- A board whose chip, allocator and user memory work as documented: what the contents theorems of
-- the flash driver assume. Wear and failing hardware are outside it.
pub mod Patch
use at91_sam9x25_drivers.Prelude.{
  ℕ, suc, ◌+◌, ◌-◌, ◌*◌, ◌≤◌, ◌<◌, ◌≡◌, Bool, true, false, some, List, length, get_or, region,
  replicate, leb, ltb, ◌&&◌, if◌then◌else◌,
}
use at91_sam9x25_drivers.Kernel.{val}
use at91_sam9x25_drivers.Flash.Board.{Board}

-- The memory `m` with `bytes` stored from `a` on.
abbrev pub patched : (ℕ → ℕ) → ℕ → List ℕ → ℕ → ℕ
patched m a bytes x = if leb a x && ltb x (a + length bytes) then get_or bytes (x - a) 0 else m x

-- `cell` and `user` are the contents of the chip and of the user's memory; `mapped a n` says that
-- the user may access the `n` bytes from `a` on.
pub record IsHealthy (p : Board) : Type 1 where
  pub cell : p.World → ℕ → ℕ
  pub user : p.World → ℕ → ℕ
  pub mapped : ℕ → ℕ → Type 0
  pub read_works :
      (w : p.World) (a n : ℕ) → a + n ≤ p.size → p.mtd_read w a n ≡ (val 0, region (cell w) a n)
  -- An erase sets its block to 0xff and touches nothing else.
  pub erase_works :
      (w : p.World) (a : ℕ)
      → a + p.erasesize ≤ p.size
      → (((p.mtd_erase w a p.erasesize).0 ≡ val 0) × ((p.mtd_erase w a p.erasesize).1 ≡ false))
  pub erase_cells :
      (w : p.World) (a x : ℕ)
      → a + p.erasesize ≤ p.size
      → cell (p.mtd_erase w a p.erasesize).2 x ≡ patched (cell w) a (replicate p.erasesize 255) x
  pub erase_user : (w : p.World) (a x : ℕ) → user (p.mtd_erase w a p.erasesize).2 x ≡ user w x
  -- A write to erased cells stores its bytes, all of them, and touches nothing else.
  pub write_count :
      (w : p.World) (a : ℕ) (b : List ℕ) → a + length b ≤ p.size → (p.mtd_write w a b).1 ≡ length b
  pub write_cells :
      (w : p.World) (a : ℕ) (b : List ℕ) (x : ℕ)
      → a + length b ≤ p.size
      → ((y : ℕ) → a ≤ y → y < a + length b → cell w y ≡ 255)
      → cell (p.mtd_write w a b).2 x ≡ patched (cell w) a b x
  pub write_user : (w : p.World) (a x : ℕ) (b : List ℕ) → user (p.mtd_write w a b).2 x ≡ user w x
  pub copy_in :
      (w : p.World) (a n : ℕ) → mapped a n → p.copy_from_user w a n ≡ some (region (user w) a n)
  pub copy_out :
      (w : p.World) (a : ℕ) (b : List ℕ) → mapped a (length b) → (p.copy_to_user w a b).0 ≡ false
  pub copy_out_user :
      (w : p.World) (a : ℕ) (b : List ℕ) (x : ℕ)
      → mapped a (length b)
      → user (p.copy_to_user w a b).1 x ≡ patched (user w) a b x
  pub copy_out_cell :
      (w : p.World) (a : ℕ) (b : List ℕ) (x : ℕ) → cell (p.copy_to_user w a b).1 x ≡ cell w x
  -- No operation makes a good block bad.
  pub erase_isbad :
      (w : p.World) (a c : ℕ) → p.block_isbad (p.mtd_erase w a p.erasesize).2 c ≡ p.block_isbad w c
  pub write_isbad :
      (w : p.World) (a c : ℕ) (b : List ℕ)
      → p.block_isbad (p.mtd_write w a b).2 c ≡ p.block_isbad w c
  pub copy_out_isbad :
      (w : p.World) (a c : ℕ) (b : List ℕ)
      → p.block_isbad (p.copy_to_user w a b).1 c ≡ p.block_isbad w c
