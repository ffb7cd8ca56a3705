-- ===== src/Flash/Write.antt =====
-- `at91flash_write` of flash/at91flash.c.
pub mod Steps
pub mod Safe
pub mod Overrun
pub mod Effect
pub mod Block
pub mod Contents
pub mod First
pub mod InBlock
pub mod Split
pub mod Straddle
pub mod Landed
pub mod Refines
use at91_sam9x25_drivers.Prelude.{
  ℕ, ◌+◌, ◌-◌, ◌*◌, ◌^◌, Option, none, some, List, length, overlay, ltb, leb, ◌==◌, not,
  if◌then◌else◌, ◌||◌, ◌&&◌, Bool,
}
use at91_sam9x25_drivers.Kernel.{Ret, val, err, efault, is_nonzero, is_euclean, u32, u64}
use at91_sam9x25_drivers.Flash.Board.{Board}
use at91_sam9x25_drivers.Flash.State.{
  next, returned, fault, Action, ◌>>=◌, ◌>>◌, leave, gets, leave_if, advance, kfree,
}
use at91_sam9x25_drivers.Flash.Blocks.{erase_eraseblock}
use at91_sam9x25_drivers.Flash.Search.{write_first_block, write_second_block}
use at91_sam9x25_drivers.Flash.Read.{kmalloc_or_leave, clip}

module _ (p : Board) where
  -- `copy_from_user(kbuf + off, buf, n)`. A copy past the end of `kbuf` is a fault.
  unfoldable pub fill : (kbuf : List ℕ) (off buf n : ℕ) → Action p.World (List ℕ)
  fill kbuf off buf n s =
      if ltb (length kbuf) (off + n) then fault else elim (p.copy_from_user s.world buf n) [
        | none ↦ returned (err efault) (record s { held = s.held - 1 })
        | some bytes ↦ next (overlay kbuf off bytes) s
      ]

  -- `mtd->read` of the whole block `ebnum` into `kbuf`, and the test of its result
  unfoldable pub read_block : (kbuf : List ℕ) (ebnum : ℕ) → Action p.World (List ℕ)
  read_block kbuf ebnum s =
      let (ret, bytes) = p.mtd_read s.world (u32 (ebnum * p.erasesize)) p.erasesize in
      let failed = if is_euclean ret then Bool.false else is_nonzero ret in
      if ltb (length kbuf) (length bytes)
      then fault
      else if failed || not (length bytes == p.erasesize)
      then returned (err efault) (record s { held = s.held - 1 })
      else next (overlay kbuf 0 bytes) s

  -- `erase_eraseblock`, and the way out where it fails
  unfoldable pub erase_or_leave : ℕ → Action p.World (Unit {0})
  erase_or_leave ebnum = do
    r ← erase_eraseblock p ebnum
    if is_nonzero r then kfree >> leave (err efault) else λ s. next tt s

  -- `mtd->write` of the block, which gives the number of bytes written. A failure is only printed.
  unfoldable pub program : (ebnum : ℕ) (kbuf : List ℕ) → Action p.World ℕ
  program ebnum kbuf s =
      let (_, written, w) = p.mtd_write s.world (u32 (ebnum * p.erasesize)) kbuf in
      next written (record s { world = w })

  -- from the label `erase_action` on
  unfoldable pub write_whole : (ebnum : ℕ) (kbuf : List ℕ) → Action p.World (Unit {0})
  write_whole ebnum kbuf = do
    erase_or_leave ebnum
    written ← program ebnum kbuf
    advance written
    kfree
    leave (val written)

  -- `//second block`: the last `rest` bytes, from the user's `buf` on
  unfoldable pub second_part : (buf rest count : ℕ) (kbuf : List ℕ) → Action p.World (Unit {0})
  second_part buf rest count kbuf = do
    block ← write_second_block p
    kbuf2 ← read_block kbuf block.0
    kbuf3 ← fill kbuf2 0 buf rest
    erase_or_leave block.0
    program block.0 kbuf3
    advance rest
    kfree
    leave (val count)

  -- the branch for data that end in the next block, `blockoffset` into the first one
  unfoldable pub write_split :
      (buf count ebnum blockoffset : ℕ) (kbuf : List ℕ) → Action p.World (Unit {0})
  write_split buf count ebnum blockoffset kbuf = do
    let head = u32 (p.erasesize + 2 ^ 32 - blockoffset)
    kbuf1 ← fill kbuf blockoffset buf head
    erase_or_leave ebnum
    program ebnum kbuf1
    advance head
    second_part (buf + head) (u32 (count + 2 ^ 32 - head)) count kbuf1

  -- `//secondly, data assembly`, after the block has been read
  unfoldable pub assemble :
      (buf count ebnum blockoffset : ℕ) (kbuf : List ℕ) → Action p.World (Unit {0})
  assemble buf count ebnum blockoffset kbuf s =
      let end = u64 (s.pos + count) in
      if leb end (u32 ((ebnum + 1) * p.erasesize))
      then (do kbuf1 ← fill kbuf blockoffset buf count; write_whole ebnum kbuf1) s
      else if leb end (u32 ((ebnum + 2) * p.erasesize))
      then write_split buf count ebnum blockoffset kbuf s
      else (kfree >> leave (err efault)) s

  -- what follows the allocation: block 0 is not read first
  unfoldable pub write_from : (buf count ebnum blockoffset : ℕ) → List ℕ → Action p.World (Unit {0})
  write_from buf count ebnum blockoffset kbuf s =
      if s.pos == 0
      then (do kbuf1 ← fill kbuf 0 buf count; write_whole ebnum kbuf1) s
      else (do kbuf1 ← read_block kbuf ebnum; assemble buf count ebnum blockoffset kbuf1) s

  -- The limit to one block is tested only where the end of the device is not passed.
  unfoldable pub write : (buf count : ℕ) → Action p.World (Unit {0})
  write buf count = do
    start ← gets (λ s. s.pos)
    leave_if (not (ltb p.size (u64 (start + count))) && ltb p.erasesize count) (err efault)
    let n = clip p start count
    leave_if (n == 0) (val 0)
    block ← write_first_block p
    kbuf ← kmalloc_or_leave p p.erasesize
    write_from buf n block.0 block.1 kbuf
