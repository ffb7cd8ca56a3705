-- ===== src/Flash/Write/InBlock.antt =====
-- A write of at91flash_write in flash/at91flash.c that lies within one good block.
use at91_sam9x25_drivers.Prelude.{
  ℕ, ◌+◌, ◌-◌, ◌*◌, ◌/◌, ◌%◌, ◌^◌, ◌≤◌, ◌<◌, ◌≡◌, ◌∙◌, ap, true, false, some, List, length, region,
  overlay, arith, length-region, length-overlay, set, ltb, leb, not, ◌&&◌, ◌==◌, div-lt, mul_mono,
  le→leb,
}
use native.Mathlib.Nat.{mod-eq_of_lt, div-add-mod'}
use at91_sam9x25_drivers.Kernel.{u32, u64}
use at91_sam9x25_drivers.Flash.Board.{Board, IsSized}
use at91_sam9x25_drivers.Flash.Chip.{IsHealthy}
use at91_sam9x25_drivers.Flash.State.{Flash}
use at91_sam9x25_drivers.Flash.Search.Ready.{IsReady, is_bad}
use at91_sam9x25_drivers.Flash.Read.{clip}
use at91_sam9x25_drivers.Flash.Write.{write_from, write}
use at91_sam9x25_drivers.Flash.Write.Effect.{started, write_here}
use at91_sam9x25_drivers.Flash.Write.Block.{rewritten}

module _ (p : Board) (sized : IsSized p) (h : IsHealthy p) where
  -- A request for `count` bytes of the user's `buf` that lies within the good block of the position.
  pub record InBlock (s : Flash p.World) (buf count : ℕ) : Type 0 where
    pub ready : IsReady p s
    pub on_device : s.pos < p.size
    pub good : is_bad p s.world (s.pos / p.erasesize) ≡ false
    pub some_bytes : 0 < count
    pub within : s.pos % p.erasesize + count ≤ p.erasesize
    pub readable : h.mapped buf count

module _ {p : Board} {sized : IsSized p} {h : IsHealthy p} {buf count : ℕ} {s : Flash p.World}
    (v : InBlock p sized h s buf count) where
  pub block_inside : (s.pos / p.erasesize + 1) * p.erasesize ≤ p.size
  block_inside =
      let lt : s.pos / p.erasesize < s.ebcnt =
        div-lt s.pos s.ebcnt p.erasesize v.ready.block_pos
          (omega (arith, v.on_device, v.ready.whole)) in
      omega
        (arith, mul_mono (s.pos / p.erasesize + 1) s.ebcnt p.erasesize (omega arith), v.ready.whole)

  pub start_split : s.pos / p.erasesize * p.erasesize + s.pos % p.erasesize ≡ s.pos
  start_split = div-add-mod' s.pos p.erasesize

  pub fits : s.pos + count ≤ p.size
  fits = omega (arith, v.within, start_split, block_inside)

  pub whole_count : clip p s.pos count ≡ count
  whole_count = ground (arith, v.ready.fits, fits)

  -- Past its guards such a write comes down to `write_from`.
  pub write_starts :
      (kbuf : List ℕ)
      → p.kmalloc s.world p.erasesize ≡ some kbuf
      → write p buf count s
        ≡ write_from p buf count
            (s.pos / p.erasesize)
            (s.pos % p.erasesize)
            kbuf
            (started p s (s.pos / p.erasesize))
  write_starts kbuf mem =
      write_here p buf count s kbuf v.ready v.on_device v.good guard (rw whole_count nonzero) mem
      ∙ ap
          (λ n.
            write_from p buf n (s.pos / p.erasesize) (s.pos % p.erasesize) kbuf
              (started p s (s.pos / p.erasesize)))
          whole_count
    where
      guard : not (ltb p.size (u64 (s.pos + count))) && ltb p.erasesize count ≡ false
      guard = ground (arith, v.within)

      nonzero : (count == 0) ≡ false
      nonzero = ground (arith, v.some_bytes)

  -- The user's bytes, and the block's bytes before and after.
  abbrev pub bytes : List ℕ
  bytes = region (h.user s.world) buf count

  abbrev pub old : List ℕ
  old = region (h.cell s.world) (s.pos / p.erasesize * p.erasesize) p.erasesize

  abbrev pub new : List ℕ
  new = overlay old (s.pos % p.erasesize) bytes

  pub length-old : length old ≡ p.erasesize
  length-old = length-region (h.cell s.world) (s.pos / p.erasesize * p.erasesize) p.erasesize

  pub room : s.pos % p.erasesize + length bytes ≤ p.erasesize
  room = omega (arith, length-region (h.user s.world) buf count, v.within)

  pub length-new : length new ≡ p.erasesize
  length-new =
      length-overlay old (s.pos % p.erasesize) bytes (omega (arith, room, length-old)) ∙ length-old

  pub no_wrap : u64 (s.pos + count) ≡ s.pos + count
  no_wrap = mod-eq_of_lt (omega (arith, v.ready.fits, fits))

  pub ends : leb (s.pos + count) (u32 ((s.pos / p.erasesize + 1) * p.erasesize)) ≡ true
  ends =
      rw
        (mod-eq_of_lt {n = (s.pos / p.erasesize + 1) * p.erasesize} {m = 2 ^ 32}
          (omega (arith, block_inside, v.ready.fits)))
        (le→leb _ _ (omega (arith, start_split, v.within)))

  -- The driver when a block has been written with `kbuf`.
  abbrev pub written : List ℕ → Flash p.World
  written kbuf = record s {
    world = rewritten p h s.world (s.pos / p.erasesize) kbuf;
    bbt = set s.bbt (s.pos / p.erasesize) 0;
    pos = s.pos + p.erasesize;
    held = s.held + 1 - 1;
  }
