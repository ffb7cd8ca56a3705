-- ===== src/Flash/Write/Contents.antt =====
-- What `at91flash_write` leaves on a chip that works, for a request within one good block.
use at91_sam9x25_drivers.Prelude.{
  ℕ, ◌+◌, ◌*◌, ◌/◌, ◌%◌, ◌≡◌, ◌≢◌, refl, ◌∙◌, ap, false, some, List, length, region, arith, ◌==◌,
}
use at91_sam9x25_drivers.Kernel.{val}
use at91_sam9x25_drivers.Flash.Board.{Board, IsSized}
use at91_sam9x25_drivers.Flash.Chip.{IsHealthy, patched}
use at91_sam9x25_drivers.Flash.Chip.Patch.{patched-overlay}
use at91_sam9x25_drivers.Flash.State.{Flash, returned}
use at91_sam9x25_drivers.Flash.Write.{assemble, write_from, write}
use at91_sam9x25_drivers.Flash.Write.Effect.{started}
use at91_sam9x25_drivers.Flash.Write.Block.{
  rewritten-cells, fill-works, read_block-works, write_whole-works,
}
use at91_sam9x25_drivers.Flash.Write.InBlock.{
  InBlock, block_inside, start_split, write_starts, bytes, old, new, length-old, room, length-new,
  no_wrap, ends, written,
}

module _ (p : Board) (sized : IsSized p) (h : IsHealthy p) (buf count : ℕ) (s : Flash p.World)
    (v : InBlock p sized h s buf count) where
  assemble-works :
      (kbuf : List ℕ)
      → length kbuf ≡ p.erasesize
      → s.pos ≢ 0
      → write_from p buf count
          (s.pos / p.erasesize)
          (s.pos % p.erasesize)
          kbuf
          (started p s (s.pos / p.erasesize))
        ≡ returned (val p.erasesize) ((written v) (new v))
  unfolding write_from assemble
  assemble-works kbuf len ne =
      let b = s.pos / p.erasesize in
      let s1 = started p s b in
      let later : (s.pos == 0) ≡ false = ground arith in
      rw
        (
          later,
          read_block-works p h s1 b (block_inside v) v.ready.fits kbuf len,
          (no_wrap v),
          (ends v),
          fill-works p h s1 b (block_inside v) v.ready.fits (old v) (s.pos % p.erasesize) buf count
              (omega (arith, (length-old v), v.within)) v.readable,
          write_whole-works p h s1 b (block_inside v) v.ready.fits (new v) (length-new v),
        )
        refl

  pub write_run :
      (kbuf : List ℕ)
      → p.kmalloc s.world p.erasesize ≡ some kbuf
      → s.pos ≢ 0
      → write p buf count s ≡ returned (val p.erasesize) ((written v) (new v))
  write_run kbuf mem ne =
      (write_starts v) kbuf mem
      ∙ assemble-works kbuf (sized.kmalloc_size s.world p.erasesize mem) ne

  pub written-cells :
      (x : ℕ)
      → h.cell ((written v) (new v)).world x
        ≡ patched (h.cell s.world) s.pos (region (h.user s.world) buf count) x
  written-cells x =
      rewritten-cells p h s.world (s.pos / p.erasesize) (new v) (block_inside v) (length-new v) x
      ∙ patched-overlay (h.cell s.world) (s.pos / p.erasesize * p.erasesize) (s.pos % p.erasesize)
          p.erasesize (bytes v) x (room v)
      ∙ ap (λ a. patched (h.cell s.world) a (bytes v) x) (start_split v)

  -- A write within a good block other than the first of the device stores exactly the user's bytes
  -- at the position, and no other cell changes; but it returns the size of a block instead of the
  -- count, and moves the position by as much.
  pub write-stores :
      (kbuf : List ℕ)
      → p.kmalloc s.world p.erasesize ≡ some kbuf
      → s.pos ≢ 0
      → (s' : Flash p.World) × (write p buf count s ≡ returned (val p.erasesize) s')
        × (s'.pos ≡ s.pos + p.erasesize)
        × ((x : ℕ)
            → h.cell s'.world x
              ≡ patched (h.cell s.world) s.pos (region (h.user s.world) buf count) x)
  write-stores kbuf mem ne = ((written v) (new v), write_run kbuf mem ne, refl, written-cells)
