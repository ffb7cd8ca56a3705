-- ===== src/Flash/Write/First.antt =====
-- A write of at91flash_write in flash/at91flash.c at the start of the device, which does not read the
-- block first.
use at91_sam9x25_drivers.Prelude.{
  ℕ, ◌+◌, ◌*◌, ◌/◌, ◌%◌, ◌≤◌, ◌<◌, ◌≡◌, refl, ◌∙◌, ap, true, some, List, length, overlay, arith,
  length-region, length-overlay, get_or, get_or-region, ◌==◌,
}
use at91_sam9x25_drivers.Kernel.{val}
use at91_sam9x25_drivers.Flash.Board.{Board, IsSized}
use at91_sam9x25_drivers.Flash.Chip.{IsHealthy, patched}
use at91_sam9x25_drivers.Flash.Chip.Patch.{patched_front, patched_after}
use at91_sam9x25_drivers.Flash.State.{Flash, returned}
use at91_sam9x25_drivers.Flash.Write.{write_from, write}
use at91_sam9x25_drivers.Flash.Write.Effect.{started}
use at91_sam9x25_drivers.Flash.Write.Block.{rewritten-cells, fill-works, write_whole-works}
use at91_sam9x25_drivers.Flash.Write.InBlock.{
  InBlock, block_inside, start_split, write_starts, bytes, room, written,
}

module _ (p : Board) (sized : IsSized p) (h : IsHealthy p) (buf count : ℕ) (s : Flash p.World)
    (v : InBlock p sized h s buf count) where
  first-works :
      (kbuf : List ℕ)
      → length kbuf ≡ p.erasesize
      → s.pos ≡ 0
      → write_from p buf count
          (s.pos / p.erasesize)
          (s.pos % p.erasesize)
          kbuf
          (started p s (s.pos / p.erasesize))
        ≡ returned (val p.erasesize) ((written v) (overlay kbuf 0 (bytes v)))
  unfolding write_from
  first-works kbuf len at =
      let b = s.pos / p.erasesize in
      let s1 = started p s b in
      let first : (s.pos == 0) ≡ true = ground arith in
      let fit : 0 + length (bytes v) ≤ length kbuf = omega (arith, (room v)) in
      rw
        (
          first,
          fill-works p h s1 b (block_inside v) v.ready.fits kbuf 0 buf count
              (omega (arith, v.within)) v.readable,
          write_whole-works p h s1 b (block_inside v) v.ready.fits (overlay kbuf 0 (bytes v))
              (length-overlay kbuf 0 (bytes v) fit ∙ len),
        )
        refl

  pub first_run :
      (kbuf : List ℕ)
      → p.kmalloc s.world p.erasesize ≡ some kbuf
      → s.pos ≡ 0
      → write p buf count s ≡ returned (val p.erasesize) ((written v) (overlay kbuf 0 (bytes v)))
  first_run kbuf mem at =
      (write_starts v) kbuf mem ∙ first-works kbuf (sized.kmalloc_size s.world p.erasesize mem) at

  -- The programmed cells of the first block: the user's bytes, and behind them the old memory.
  pub first-full :
      (kbuf : List ℕ) → length kbuf ≡ p.erasesize → length (overlay kbuf 0 (bytes v)) ≡ p.erasesize
  first-full kbuf len = length-overlay kbuf 0 (bytes v) (omega (arith, (room v))) ∙ len

  pub first-cells :
      (kbuf : List ℕ) (x : ℕ)
      → length kbuf ≡ p.erasesize
      → s.pos ≡ 0
      → h.cell ((written v) (overlay kbuf 0 (bytes v))).world x
        ≡ patched (h.cell s.world) 0 (overlay kbuf 0 (bytes v)) x
  first-cells kbuf x len at =
      let base : s.pos / p.erasesize * p.erasesize ≡ 0 = omega (arith, (start_split v)) in
      rewritten-cells p h s.world (s.pos / p.erasesize) (overlay kbuf 0 (bytes v)) (block_inside v)
        (first-full kbuf len) x
      ∙ ap (λ a. patched (h.cell s.world) a (overlay kbuf 0 (bytes v)) x) base

  pub first-front :
      (kbuf : List ℕ) (x : ℕ)
      → length kbuf ≡ p.erasesize
      → x < count
      → patched (h.cell s.world) 0 (overlay kbuf 0 (bytes v)) x ≡ h.user s.world (buf + x)
  first-front kbuf x len lt = ground (
    arith,
    (room v),
    length-region (h.user s.world) buf count,
    patched_front (h.cell s.world) kbuf (bytes v) x (omega (arith, (room v))),
    get_or-region (h.user s.world) buf count x 0,
  )

  -- A write at the start of the device, of at least a byte and at most a block, where block 0 is good,
  -- memory can be had and the user's buffer can be read, does not read the block first. The user's bytes are stored, but the rest of
  -- block 0 is overwritten with whatever the memory from `kmalloc` held. The other blocks stay as they
  -- are.
  pub write-clobbers_first :
      (kbuf : List ℕ)
      → p.kmalloc s.world p.erasesize ≡ some kbuf
      → s.pos ≡ 0
      → (s' : Flash p.World) × (write p buf count s ≡ returned (val p.erasesize) s')
        × ((x : ℕ) → x < count → h.cell s'.world x ≡ h.user s.world (buf + x))
        × ((x : ℕ) → count ≤ x → x < p.erasesize → h.cell s'.world x ≡ get_or kbuf x 0)
        × ((x : ℕ) → p.erasesize ≤ x → h.cell s'.world x ≡ h.cell s.world x)
  write-clobbers_first kbuf mem at =
      let len = sized.kmalloc_size s.world p.erasesize mem in
      let size : length (bytes v) ≡ count = length-region (h.user s.world) buf count in
      let front =
        λ (x : ℕ). patched_front (h.cell s.world) kbuf (bytes v) x (omega (arith, (room v))) in
      (
        (written v) (overlay kbuf 0 (bytes v)),
        first_run kbuf mem at,
        λ x lt. first-cells kbuf x len at ∙ first-front kbuf x len lt,
        λ x le lt. first-cells kbuf x len at ∙ ground (arith, front x),
        λ x le.
            first-cells kbuf x len at
            ∙ patched_after (h.cell s.world) _ _ x (omega (arith, first-full kbuf len)),
      )
