-- ===== src/Flash/Read/Contents.antt =====
-- What `at91flash_read` hands to the user, on a chip that works.
use at91_sam9x25_drivers.Prelude.{
  ℕ, ◌+◌, ◌-◌, ◌*◌, ◌/◌, ◌%◌, ◌≤◌, ◌<◌, ◌≡◌, refl, ◌∙◌, ap, true, false, some, List, length, region,
  arith, length-region, set, ltb, leb, ◌==◌, div-lt, mul_mono, le→leb, le→not_ltb,
}
use mathlib.Core.Path.{fun_ext}
use native.Mathlib.Nat.{mod-eq_of_lt, div-add-mod'}
use at91_sam9x25_drivers.Kernel.{val, err, efault, is_nonzero, u32, u64}
use at91_sam9x25_drivers.Flash.Board.{Board}
use at91_sam9x25_drivers.Flash.Chip.{IsHealthy, patched}
use at91_sam9x25_drivers.Flash.State.{Flash, next, returned, leave}
use at91_sam9x25_drivers.Flash.Search.{read_first_block}
use at91_sam9x25_drivers.Flash.Search.Ready.{IsReady, is_bad}
use at91_sam9x25_drivers.Flash.Search.Found.{find_here}
use at91_sam9x25_drivers.Flash.Read.{
  kmalloc_or_leave, clip, max_kmalloc_size, read_chunk, deliver, read_whole, read_from, read,
}

module _ (p : Board) (h : IsHealthy p) where
  -- The driver after the search and the allocation, with block `b` marked as good.
  abbrev pub started : Flash p.World → ℕ → Flash p.World
  started s b = record s { bbt = set s.bbt b 0; held = s.held + 1 }

  -- A chunk that lies on the chip, and what handing it over does.
  pub read_chunk-works :
      (room len : ℕ) (s : Flash p.World)
      → len ≤ room
      → s.pos + len ≤ p.size
      → read_chunk p room len s ≡ next (region (h.cell s.world) s.pos len) s
  unfolding read_chunk
  read_chunk-works room len s le inside =
      rw
        (
          h.read_works s.world s.pos len inside,
          le→not_ltb room (length (region (h.cell s.world) s.pos len))
              (omega (arith, length-region (h.cell s.world) s.pos len)),
        )
        refl

  unfoldable pub delivered : Flash p.World → ℕ → List ℕ → Flash p.World
  delivered s buf bytes = record s {
    world = (p.copy_to_user s.world buf bytes).1;
    pos = s.pos + length bytes;
  }

  -- The chip is the same.
  pub record SameChip (w w' : p.World) : Type 0 where
    pub cells : h.cell w' ≡ h.cell w
    pub bad : is_bad p w' ≡ is_bad p w

  pub delivered-SameChip :
      (s : Flash p.World) (buf : ℕ) (bytes : List ℕ)
      → SameChip s.world (delivered s buf bytes).world
  unfolding delivered
  delivered-SameChip s buf bytes = record {
    cells = fun_ext λ x. h.copy_out_cell s.world buf bytes x;
    bad = fun_ext λ b. ap is_nonzero (h.copy_out_isbad s.world buf (b * p.erasesize) bytes);
  }

  pub deliver-works :
      (buf : ℕ) (bytes : List ℕ) (s : Flash p.World)
      → 0 < length bytes
      → h.mapped buf (length bytes)
      → deliver p buf bytes s ≡ next tt (delivered s buf bytes)
  unfolding deliver delivered
  deliver-works buf bytes s some_bytes ok =
      let nonempty : (length bytes == 0) ≡ false = ground arith in
      rw (nonempty, h.copy_out s.world buf bytes ok) refl

  -- A request for `count` bytes on the device that starts in a good block, and memory for it.
  pub record Asks (s : Flash p.World) (buf count : ℕ) : Type 0 where
    pub ready : IsReady p s
    pub good : is_bad p s.world (s.pos / p.erasesize) ≡ false
    pub some_bytes : 0 < count
    pub moderate : count ≤ max_kmalloc_size
    pub inside : s.pos + count ≤ p.size

  module _ (buf count : ℕ) (s : Flash p.World) (v : Asks s buf count) where
    pub block_lt : s.pos / p.erasesize < s.ebcnt
    block_lt =
        div-lt s.pos s.ebcnt p.erasesize v.ready.block_pos
          (omega (arith, v.inside, v.some_bytes, v.ready.whole))

    pub start_split : s.pos / p.erasesize * p.erasesize + s.pos % p.erasesize ≡ s.pos
    start_split = div-add-mod' s.pos p.erasesize

    -- Past its guards such a read comes down to `read_from`.
    pub read_starts :
        {readbuf : List ℕ}
        → p.kmalloc s.world count ≡ some readbuf
        → read p buf count s
          ≡ read_from p buf count (s.pos / p.erasesize) (started s (s.pos / p.erasesize))
    unfolding read read_first_block kmalloc_or_leave
    read_starts mem =
        let whole : clip p s.pos count ≡ count = ground (arith, v.inside, v.ready.fits) in
        let nonzero : (count == 0) ≡ false = ground (arith, v.some_bytes) in
        let small : ltb max_kmalloc_size count ≡ false =
          le→not_ltb max_kmalloc_size count v.moderate in
        rw
          (
            find_here p (leave (err efault)) (leave (err efault)) s v.ready block_lt v.good,
            whole,
            nonzero,
            small,
            mem,
          )
          refl

    pub no_wrap : u64 (s.pos + count) ≡ s.pos + count
    no_wrap = mod-eq_of_lt (omega (arith, v.ready.fits, v.inside))

    pub block_end :
        u32 ((s.pos / p.erasesize + 1) * p.erasesize) ≡ (s.pos / p.erasesize + 1) * p.erasesize
    block_end =
        let lt = block_lt in
        mod-eq_of_lt (
          omega (
            arith,
            mul_mono (s.pos / p.erasesize + 1) s.ebcnt p.erasesize (omega arith),
            v.ready.whole,
            v.ready.fits,
          ))

    -- A read within a good block hands the user exactly the bytes of the chip from the position on,
    -- returns their number, and moves the position by it; the chip and the user's other memory stay.
    pub read-delivers :
        {readbuf : List ℕ}
        → p.kmalloc s.world count ≡ some readbuf
        → s.pos % p.erasesize + count ≤ p.erasesize
        → h.mapped buf count
        → (s' : Flash p.World) × (read p buf count s ≡ returned (val count) s')
          × (s'.pos ≡ s.pos + count)
          × ((x : ℕ)
              → h.user s'.world x
                ≡ patched (h.user s.world) buf (region (h.cell s.world) s.pos count) x)
          × SameChip s.world s'.world
          × (s'.ebcnt ≡ s.ebcnt)
    unfolding read_from read_whole delivered
    read-delivers mem within ok =
        let b = s.pos / p.erasesize in
        let s1 = started s b in
        let bytes = region (h.cell s.world) s.pos count in
        let size : length bytes ≡ count = length-region (h.cell s.world) s.pos count in
        let some_read : 0 < length bytes = omega (arith, v.some_bytes) in
        let readable : h.mapped buf (length bytes) = rw size ok in
        let stays : ltb ((b + 1) * p.erasesize) (s.pos + count) ≡ false =
          le→not_ltb _ _ (omega (arith, start_split)) in
        let fits : leb (s.pos + count) ((b + 1) * p.erasesize) ≡ true =
          le→leb _ _ (omega (arith, start_split)) in
        (
          record (delivered s1 buf bytes) { held = s1.held - 1 },
          read_starts mem
              ∙ rw
                  (
                    no_wrap,
                    block_end,
                    stays,
                    fits,
                    read_chunk-works count count s1 (omega arith) v.inside,
                    deliver-works buf bytes s1 some_read readable,
                    size,
                  )
                  refl,
          ap (λ n. s.pos + n) size,
          λ x. h.copy_out_user s.world buf bytes x readable,
          delivered-SameChip s1 buf bytes,
          refl,
        )
