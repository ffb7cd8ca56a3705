-- ===== src/Flash/Read.antt =====
-- `at91flash_read` of flash/at91flash.c.
pub mod Safe
pub mod Contents
pub mod Split
pub mod Landed
pub mod Refines
pub mod Stream
use at91_sam9x25_drivers.Prelude.{
  ℕ, ◌+◌, ◌-◌, ◌*◌, ◌^◌, Bool, true, false, Option, none, some, List, length, ltb, leb, ◌==◌,
  if◌then◌else◌,
}
use at91_sam9x25_drivers.Kernel.{Ret, val, err, enomem, efault, u32, u64}
use at91_sam9x25_drivers.Flash.Board.{Board}
use at91_sam9x25_drivers.Flash.State.{
  Flash, Out, next, returned, fault, Action, ◌>>=◌, ◌>>◌, pure, leave, gets, leave_if, advance,
  kfree,
}
use at91_sam9x25_drivers.Flash.Search.{read_first_block, read_second_block}

abbrev pub max_kmalloc_size : ℕ
max_kmalloc_size = 0x20000

module _ (p : Board) where
  -- `kmalloc` of `n` bytes, with `-ENOMEM` where it gives NULL
  abbrev pub allocated : Option (List ℕ) → Action p.World (List ℕ)
  allocated none s = returned (err enomem) s
  allocated (some buf) s = next buf (record s { held = s.held + 1 })

  unfoldable pub kmalloc_or_leave : ℕ → Action p.World (List ℕ)
  kmalloc_or_leave n s = allocated (p.kmalloc s.world n) s

  -- `mtd->read` into `readbuf`, which holds `room` bytes. A failed read is only printed.
  unfoldable pub read_chunk : (room len : ℕ) → Action p.World (List ℕ)
  read_chunk room len s =
      let bytes = (p.mtd_read s.world s.pos len).1 in
      if ltb room (length bytes) then fault else next bytes s

  -- `if(readlen != 0)`: the position moves, and the bytes go to the user.
  unfoldable pub deliver : ℕ → List ℕ → Action p.World (Unit {0})
  deliver buf bytes s =
      if length bytes == 0
      then next tt s
      else (let s1 = record s { pos = s.pos + length bytes } in
          let (failed, w) = p.copy_to_user s.world buf bytes in
          if failed
          then returned (err efault) (record s1 { world = w; held = s.held - 1 })
          else next tt (record s1 { world = w }))

  -- What was asked for lies within the block
  unfoldable pub read_whole : (buf count : ℕ) → Action p.World (Unit {0})
  read_whole buf count = do
    bytes ← read_chunk count count
    deliver buf bytes
    kfree
    leave (val (length bytes))

  -- `//block jump`: the rest of this block, then the rest of the count from the next good block
  unfoldable pub read_split : (buf count ebnum : ℕ) → Action p.World (Unit {0})
  read_split buf count ebnum = do
    start ← gets (λ s. s.pos)
    bytes ← read_chunk count (u32 (u32 ((ebnum + 1) * p.erasesize) + 2 ^ 64 - start))
    deliver buf bytes
    read_second_block p (length bytes)
    rest ← read_chunk count (u32 (count + 2 ^ 32 - length bytes))
    deliver (buf + length bytes) rest
    kfree
    leave (val (length rest))

  -- `count` cut down to the end of the device
  abbrev pub clip : (start count : ℕ) → ℕ
  clip start count =
      if ltb p.size (u64 (start + count)) then u32 (u64 (p.size + 2 ^ 64 - start)) else count

  -- the choice between the two; the last branch is the source's `read too much!!!`
  unfoldable pub read_from : (buf count ebnum : ℕ) → Action p.World (Unit {0})
  read_from buf count ebnum s =
      let block_end = u32 ((ebnum + 1) * p.erasesize) in
      if ltb block_end (u64 (s.pos + count))
      then read_split buf count ebnum s
      else if leb (u64 (s.pos + count)) block_end
      then read_whole buf count s
      else (kfree >> leave (err efault)) s

  -- `at91flash_read` of `count` bytes to the user's `buf`
  unfoldable pub read : (buf count : ℕ) → Action p.World (Unit {0})
  read buf count = do
    block ← read_first_block p
    start ← gets (λ s. s.pos)
    let n = clip start count
    leave_if (n == 0) (val 0)
    let m = if ltb max_kmalloc_size n then max_kmalloc_size else n
    kmalloc_or_leave m
    read_from buf m block.0
