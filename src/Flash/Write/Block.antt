-- ===== src/Flash/Write/Block.antt =====
-- The erase and programming of one block, on a board that works.
use at91_sam9x25_drivers.Prelude.{
  ℕ, ◌+◌, ◌-◌, ◌*◌, ◌^◌, ◌≤◌, ◌<◌, ◌≡◌, refl, sym, ◌∙◌, ap, List, length, region, overlay, arith,
  length-replicate, replicate, le→not_ltb, length-region, overlay_all,
}
use mathlib.Core.Path.{fun_ext}
use native.Mathlib.Nat.{mod-eq_of_lt}
use at91_sam9x25_drivers.Kernel.{val, u32, is_nonzero}
use at91_sam9x25_drivers.Flash.Board.{Board}
use at91_sam9x25_drivers.Flash.Chip.{IsHealthy, patched}
use at91_sam9x25_drivers.Flash.Chip.Patch.{patched_in, patched_twice, get_or-replicate}
use at91_sam9x25_drivers.Flash.State.{Flash, next, returned}
use at91_sam9x25_drivers.Flash.Search.Ready.{is_bad}
use at91_sam9x25_drivers.Flash.Blocks.{erase_eraseblock}
use at91_sam9x25_drivers.Flash.Write.{fill, read_block, erase_or_leave, program, write_whole}

module _ (p : Board) (h : IsHealthy p) where
  -- The world once block `b` has been erased and programmed with `kbuf`.
  unfoldable pub rewritten : p.World → ℕ → List ℕ → p.World
  rewritten w b kbuf =
      let a = b * p.erasesize in (p.mtd_write (p.mtd_erase w a p.erasesize).2 a kbuf).2

  module _ (w : p.World) (b : ℕ) (kbuf : List ℕ) (inside : (b + 1) * p.erasesize ≤ p.size)
      (len : length kbuf ≡ p.erasesize) where
    pub rewritten-cells :
        (x : ℕ) → h.cell (rewritten w b kbuf) x ≡ patched (h.cell w) (b * p.erasesize) kbuf x
    unfolding rewritten
    rewritten-cells x =
        h.write_cells erased a kbuf x (omega arith) all_ones
        ∙ patched_twice (h.cell w) (h.cell erased) a ones kbuf x
            (length-replicate p.erasesize 255 ∙ sym len) (λ y. h.erase_cells w a y (omega arith))
      where
        a : ℕ
        a = b * p.erasesize

        erased : p.World
        erased = (p.mtd_erase w a p.erasesize).2

        ones : List ℕ
        ones = replicate p.erasesize 255

        all_ones : (y : ℕ) → a ≤ y → y < a + length kbuf → h.cell erased y ≡ 255
        all_ones y le lt =
            h.erase_cells w a y (omega arith)
            ∙ patched_in (h.cell w) a ones y le
                (omega (arith, length-replicate {A = ℕ} p.erasesize 255))
            ∙ get_or-replicate p.erasesize (y - a) 255 (omega arith)

    pub rewritten-user : (x : ℕ) → h.user (rewritten w b kbuf) x ≡ h.user w x
    unfolding rewritten
    rewritten-user x = h.write_user _ _ x kbuf ∙ h.erase_user w _ x

    pub rewritten-isbad : (c : ℕ) → p.block_isbad (rewritten w b kbuf) c ≡ p.block_isbad w c
    unfolding rewritten
    rewritten-isbad c = h.write_isbad _ _ c kbuf ∙ h.erase_isbad w _ c

    pub rewritten-bad : is_bad p (rewritten w b kbuf) ≡ is_bad p w
    rewritten-bad = fun_ext λ c. ap is_nonzero (rewritten-isbad (c * p.erasesize))

  module _ (s : Flash p.World) (b : ℕ) (inside : (b + 1) * p.erasesize ≤ p.size)
      (fits : p.size < 2 ^ 32) where
    pub u32_start : u32 (b * p.erasesize) ≡ b * p.erasesize
    u32_start = mod-eq_of_lt (omega arith)

    pub erase_or_leave-works :
        erase_or_leave p b s
        ≡ next tt (record s { world = (p.mtd_erase s.world (b * p.erasesize) p.erasesize).2 })
    unfolding erase_or_leave erase_eraseblock
    erase_or_leave-works =
        let (r, f) = h.erase_works s.world (b * p.erasesize) (omega arith) in
        rw (u32_start, r, f) refl

    pub write_whole-works :
        (kbuf : List ℕ)
        → length kbuf ≡ p.erasesize
        → write_whole p b kbuf s
          ≡ returned (val p.erasesize) (record s {
            world = rewritten s.world b kbuf;
            pos = s.pos + p.erasesize;
            held = s.held - 1;
          })
    unfolding write_whole program rewritten
    write_whole-works kbuf len =
        let count =
          h.write_count (p.mtd_erase s.world (b * p.erasesize) p.erasesize).2 (b * p.erasesize) kbuf
            (omega arith)
          ∙ len in
        rw (erase_or_leave-works, u32_start, count) refl

    pub fill-works :
        (kbuf : List ℕ) (off buf n : ℕ)
        → off + n ≤ length kbuf
        → h.mapped buf n
        → fill p kbuf off buf n s ≡ next (overlay kbuf off (region (h.user s.world) buf n)) s
    unfolding fill
    fill-works kbuf off buf n le ok = rw (le→not_ltb _ _ le, h.copy_in s.world buf n ok) refl

    pub read_block-works :
        (kbuf : List ℕ)
        → length kbuf ≡ p.erasesize
        → read_block p kbuf b s ≡ next (region (h.cell s.world) (b * p.erasesize) p.erasesize) s
    unfolding read_block
    read_block-works kbuf len =
        let bytes = region (h.cell s.world) (b * p.erasesize) p.erasesize in
        let size : length bytes ≡ p.erasesize =
          length-region (h.cell s.world) (b * p.erasesize) p.erasesize in
        rw (u32_start, h.read_works s.world (b * p.erasesize) p.erasesize (omega arith))
          (ground (arith, size, overlay_all kbuf bytes))
