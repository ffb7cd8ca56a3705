-- ===== src/Flash/Write/Effect.antt =====
-- What `at91flash_write` does in a good block, up to the erase and the programming of blocks.
use at91_sam9x25_drivers.Prelude.{
  ℕ, ◌+◌, ◌/◌, ◌%◌, ◌<◌, ◌≡◌, refl, false, some, List, set, ltb, not, ◌&&◌, ◌==◌, arith, div-lt,
}
use at91_sam9x25_drivers.Kernel.{u64, err, efault}
use at91_sam9x25_drivers.Flash.Board.{Board}
use at91_sam9x25_drivers.Flash.State.{Flash, leave}
use at91_sam9x25_drivers.Flash.Search.{write_first_block}
use at91_sam9x25_drivers.Flash.Search.Ready.{IsReady, is_bad}
use at91_sam9x25_drivers.Flash.Search.Found.{find_here}
use at91_sam9x25_drivers.Flash.Read.{kmalloc_or_leave, clip}
use at91_sam9x25_drivers.Flash.Write.{write_from, write}

module _ (p : Board) where
  -- The driver after the search and the allocation, with block `b` marked as good.
  abbrev pub started : Flash p.World → ℕ → Flash p.World
  started s b = record s { bbt = set s.bbt b 0; held = s.held + 1 }

  -- Past its guards a write that starts in a good block comes down to `write_from`.
  pub write_here :
      (buf count : ℕ) (s : Flash p.World) (kbuf : List ℕ)
      → IsReady p s
      → s.pos < p.size
      → is_bad p s.world (s.pos / p.erasesize) ≡ false
      → not (ltb p.size (u64 (s.pos + count))) && ltb p.erasesize count ≡ false
      → clip p s.pos count == 0 ≡ false
      → p.kmalloc s.world p.erasesize ≡ some kbuf
      → write p buf count s
        ≡ write_from p buf
            (clip p s.pos count)
            (s.pos / p.erasesize)
            (s.pos % p.erasesize)
            kbuf
            (started s (s.pos / p.erasesize))
  unfolding write write_first_block kmalloc_or_leave
  write_here buf count s kbuf v at good guard some_left mem =
      let inside : s.pos / p.erasesize < s.ebcnt =
        div-lt s.pos s.ebcnt p.erasesize v.block_pos (omega (arith, v.whole)) in
      rw
        (
          guard,
          some_left,
          find_here p (leave (err efault)) (leave (err efault)) s v inside good,
          mem,
        )
        refl
