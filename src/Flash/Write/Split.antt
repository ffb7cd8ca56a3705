-- ===== src/Flash/Write/Split.antt =====
-- `at91flash_write` from one good block on into the next good one, on a chip that works.
use at91_sam9x25_drivers.Prelude.{
  ℕ, ◌+◌, ◌-◌, ◌*◌, ◌^◌, ◌≡◌, refl, ◌∙◌, ap, true, false, some, List, length, region, arith,
  length-region, ltb, leb, not, ◌&&◌, ◌==◌, le→leb, lt→not_leb,
}
use mathlib.Core.Path.{fun_ext}
use native.Mathlib.Nat.{mod-eq_of_lt}
use at91_sam9x25_drivers.Kernel.{val, u32, u64}
use at91_sam9x25_drivers.Flash.Board.{Board, IsSized}
use at91_sam9x25_drivers.Flash.Chip.{IsHealthy, patched}
use at91_sam9x25_drivers.Flash.Chip.Patch.{patched-overlay}
use at91_sam9x25_drivers.Flash.State.{Flash, returned}
use at91_sam9x25_drivers.Flash.Search.Ready.{is_bad}
use at91_sam9x25_drivers.Flash.Read.{clip}
use at91_sam9x25_drivers.Flash.Write.{
  program, second_part, write_split, assemble, write_from, write,
}
use at91_sam9x25_drivers.Flash.Write.Effect.{started, write_here}
use at91_sam9x25_drivers.Flash.Write.Block.{
  rewritten, rewritten-cells, rewritten-user, rewritten-bad, fill-works, read_block-works,
  erase_or_leave-works, u32_start,
}
use at91_sam9x25_drivers.Flash.Write.Straddle.{
  Straddles, block, off, head, rest, off_lt, start_split, border, behind_inside, block_inside, old,
  first_bytes, new, length-new, world1, halfway, halfway-bad, second-pos, next_inside, second_start,
  second_search, old_next, rest_bytes, new_next, length-old_next, room_next, length-new_next,
}

module _ (p : Board) (sized : IsSized p) (h : IsHealthy p) (buf count g : ℕ) (s : Flash p.World)
    (v : Straddles p sized h s buf count g) where
  abbrev pub finished : Flash p.World
  finished = record (second_start v) {
    world = rewritten p h (world1 v) g (new_next v);
    pos = (second_start v).pos + (rest v);
    held = (second_start v).held - 1;
  }

  second_runs :
      (kbuf : List ℕ)
      → length kbuf ≡ p.erasesize
      → second_part p (buf + (head v)) (rest v) count kbuf (halfway v)
        ≡ returned (val count) finished
  unfolding second_part program rewritten
  second_runs kbuf len =
      rw
        (
          (second_search v),
          read_block-works p h (second_start v) g (next_inside v) v.ready.fits kbuf len,
          fill-works p h (second_start v) g (next_inside v) v.ready.fits (old_next v) 0
              (buf + (head v)) (rest v) (omega (arith, (length-old_next v), v.at_most_block))
              v.readable_rest,
          erase_or_leave-works p h (second_start v) g (next_inside v) v.ready.fits,
          u32_start p h (second_start v) g (next_inside v) v.ready.fits,
        )
        refl

  head_32 : u32 (p.erasesize + 2 ^ 32 - (off v)) ≡ (head v)
  head_32 = omega (arith, (off_lt v), v.ready.fits, (border v), v.inside, v.crosses)

  rest_32 : u32 (count + 2 ^ 32 - (head v)) ≡ (rest v)
  rest_32 = omega (arith, v.at_most_block, v.crosses, v.ready.fits, v.inside, (off_lt v))

  split_runs :
      write_split p buf count (block v) (off v) (old v) (started p s (block v))
      ≡ returned (val count) finished
  unfolding write_split program rewritten
  split_runs =
      rw
        (
          head_32,
          fill-works p h (started p s (block v)) (block v) (block_inside v) v.ready.fits (old v)
              (off v) buf (head v)
              (omega (
                arith,
                length-region (h.cell s.world) ((block v) * p.erasesize) p.erasesize,
                (off_lt v),
              ))
              v.readable,
          erase_or_leave-works p h (started p s (block v)) (block v) (block_inside v) v.ready.fits,
          u32_start p h (started p s (block v)) (block v) (block_inside v) v.ready.fits,
          rest_32,
        )
        (second_runs (new v) (length-new v))

  assembled :
      (kbuf : List ℕ)
      → length kbuf ≡ p.erasesize
      → write_from p buf count (block v) (off v) kbuf (started p s (block v))
        ≡ returned (val count) finished
  unfolding write_from assemble
  assembled kbuf len =
      let later : (s.pos == 0) ≡ false = ground (arith, v.later) in
      let no_wrap : u64 (s.pos + count) ≡ s.pos + count =
        mod-eq_of_lt (omega (arith, v.inside, v.ready.fits)) in
      let two : (block v) + 2 ≡ (block v) + 1 + 1 = omega arith in
      let past_block : leb (s.pos + count) (u32 (((block v) + 1) * p.erasesize)) ≡ false =
        rw
          (mod-eq_of_lt {n = ((block v) + 1) * p.erasesize} {m = 2 ^ 32}
            (omega (arith, (block_inside v), v.ready.fits)))
          (lt→not_leb _ _ (omega (arith, (border v), v.crosses, (off_lt v)))) in
      let within_next : leb (s.pos + count) (u32 (((block v) + 2) * p.erasesize)) ≡ true =
        rw
          (
            two,
            mod-eq_of_lt {n = ((block v) + 1 + 1) * p.erasesize} {m = 2 ^ 32}
                (omega (arith, (behind_inside v), v.ready.fits)),
          )
          (le→leb _ _ (omega (arith, (border v), v.at_most_block, (off_lt v)))) in
      rw
        (
          later,
          read_block-works p h (started p s (block v)) (block v) (block_inside v) v.ready.fits kbuf
              len,
          no_wrap,
          past_block,
          within_next,
        )
        split_runs

  world1-cells :
      (y : ℕ)
      → h.cell (world1 v) y
        ≡ patched (h.cell s.world) s.pos (region (h.user s.world) buf (head v)) y
  world1-cells y =
      rewritten-cells p h s.world (block v) (new v) (block_inside v) (length-new v) y
      ∙ patched-overlay (h.cell s.world) ((block v) * p.erasesize) (off v) p.erasesize
          (first_bytes v) y (omega (arith, length-region (h.user s.world) buf (head v), (off_lt v)))
      ∙ ap (λ a. patched (h.cell s.world) a (first_bytes v) y) (start_split v)

  pub finished-cells :
      (x : ℕ)
      → h.cell finished.world x
        ≡ patched
            (λ y. patched (h.cell s.world) s.pos (region (h.user s.world) buf (head v)) y)
            (g * p.erasesize)
            (region (h.user s.world) (buf + (head v)) (rest v))
            x
  finished-cells x =
      rewritten-cells p h (world1 v) g (new_next v) (next_inside v) (length-new_next v) x
      ∙ patched-overlay (h.cell (world1 v)) (g * p.erasesize) 0 p.erasesize (rest_bytes v) x
          (room_next v)
      ∙ ap (λ a. patched (h.cell (world1 v)) a (rest_bytes v) x) {x = g * p.erasesize + 0}
          {y = g * p.erasesize} (omega arith)
      ∙ ap (λ f. patched f (g * p.erasesize) (rest_bytes v) x) (fun_ext world1-cells)
      ∙ ap
          (λ f.
            patched (λ y. patched (h.cell s.world) s.pos (region (h.user s.world) buf (head v)) y)
              (g * p.erasesize) (region f (buf + (head v)) (rest v)) x)
          (fun_ext (rewritten-user p h s.world (block v) (new v) (block_inside v) (length-new v)))

  pub split_run :
      (kbuf : List ℕ)
      → p.kmalloc s.world p.erasesize ≡ some kbuf
      → write p buf count s ≡ returned (val count) finished
  split_run kbuf mem =
      write_here p buf count s kbuf v.ready (omega (arith, v.inside, v.crosses, (off_lt v))) v.good
        guard (rw whole nonzero) mem
      ∙ ap (λ n. write_from p buf n (block v) (off v) kbuf (started p s (block v))) whole
      ∙ assembled kbuf (sized.kmalloc_size s.world p.erasesize mem)
    where
      whole : clip p s.pos count ≡ count
      whole = ground (arith, v.ready.fits, v.inside)

      guard : not (ltb p.size (u64 (s.pos + count))) && ltb p.erasesize count ≡ false
      guard = ground (arith, v.at_most_block)

      nonzero : (count == 0) ≡ false
      nonzero = ground (arith, v.crosses, (off_lt v))

  pub finished-bad : is_bad p finished.world ≡ is_bad p s.world
  finished-bad =
      rewritten-bad p h (world1 v) g (new_next v) (next_inside v) (length-new_next v)
      ∙ (halfway-bad v)

  -- A write from a good block other than the first on into block `g`, the next good one, stores the
  -- user's bytes at the position up to the end of its block, and the rest at the start of block
  -- `g`, and changes no other cell; it returns the count and leaves the position behind the last
  -- byte.
  pub write-crosses :
      (kbuf : List ℕ)
      → p.kmalloc s.world p.erasesize ≡ some kbuf
      → (s' : Flash p.World) × (write p buf count s ≡ returned (val count) s')
        × (s'.pos ≡ g * p.erasesize + (rest v))
        × ((x : ℕ)
            → h.cell s'.world x
              ≡ patched
                  (λ y. patched (h.cell s.world) s.pos (region (h.user s.world) buf (head v)) y)
                  (g * p.erasesize)
                  (region (h.user s.world) (buf + (head v)) (rest v))
                  x)
  write-crosses kbuf mem =
      (finished, split_run kbuf mem, ap (λ a. a + (rest v)) (second-pos v), finished-cells)
