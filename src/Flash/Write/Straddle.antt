-- ===== src/Flash/Write/Straddle.antt =====
-- A write of at91flash_write in flash/at91flash.c that goes on from a good block into the next good
-- one: where the two parts of the data lie, and the driver between them.
use at91_sam9x25_drivers.Prelude.{
  ℕ, ◌+◌, ◌-◌, ◌*◌, ◌/◌, ◌%◌, ◌≤◌, ◌<◌, ◌≡◌, ◌≢◌, ◌∙◌, ap, false, some, List, length, region,
  overlay, arith, length-region, length-overlay, length-set, mul-lt_of_mul, mul_mono, mul-div_self,
  mul-mod_self,
}
use native.Mathlib.Nat.{div-add-mod', mod-lt}
use at91_sam9x25_drivers.Kernel.{err, efault}
use at91_sam9x25_drivers.Flash.Board.{Board, IsSized}
use at91_sam9x25_drivers.Flash.Chip.{IsHealthy}
use at91_sam9x25_drivers.Flash.State.{Flash, next, leave, kfree, ◌>>◌}
use at91_sam9x25_drivers.Flash.Search.{write_second_block}
use at91_sam9x25_drivers.Flash.Search.Ready.{IsReady, is_bad, first_good}
use at91_sam9x25_drivers.Flash.Search.Found.{landing}
use at91_sam9x25_drivers.Flash.Search.Lands.{lands, landed, search-landed, lands_bounds}
use at91_sam9x25_drivers.Flash.Write.Effect.{started}
use at91_sam9x25_drivers.Flash.Write.Block.{rewritten, rewritten-bad}

module _ (p : Board) (sized : IsSized p) (h : IsHealthy p) where
  -- A request for `count` bytes, at most a block, that goes on from the good block of the position
  -- into block `g`, the first good one behind it.
  pub record Straddles (s : Flash p.World) (buf count g : ℕ) : Type 0 where
    pub ready : IsReady p s
    pub later : s.pos ≢ 0
    pub good : is_bad p s.world (s.pos / p.erasesize) ≡ false
    pub finds :
        first_good
          (is_bad p s.world)
          (s.ebcnt - (s.pos / p.erasesize + 1))
          (s.pos / p.erasesize + 1)
        ≡ some g
    pub crosses : p.erasesize < s.pos % p.erasesize + count
    pub at_most_block : count ≤ p.erasesize
    pub inside : s.pos + count ≤ p.size
    pub readable : h.mapped buf (p.erasesize - s.pos % p.erasesize)
    pub readable_rest :
        h.mapped
          (buf + (p.erasesize - s.pos % p.erasesize))
          (count - (p.erasesize - s.pos % p.erasesize))

module _ {p : Board} {sized : IsSized p} {h : IsHealthy p} {buf count g : ℕ} {s : Flash p.World}
    (v : Straddles p sized h s buf count g) where
  abbrev pub block : ℕ
  block = s.pos / p.erasesize

  abbrev pub off : ℕ
  off = s.pos % p.erasesize

  abbrev pub head : ℕ
  head = p.erasesize - off

  abbrev pub rest : ℕ
  rest = count - head

  pub off_lt : off < p.erasesize
  off_lt = mod-lt s.pos v.ready.block_pos

  pub start_split : block * p.erasesize + off ≡ s.pos
  start_split = div-add-mod' s.pos p.erasesize

  pub border : s.pos + head ≡ (block + 1) * p.erasesize
  border = omega (arith, start_split, off_lt)

  -- The block behind that of the position is on the device.
  pub behind_inside : (block + 1 + 1) * p.erasesize ≤ p.size
  behind_inside =
      let lt : block + 1 < s.ebcnt =
        mul-lt_of_mul (block + 1) s.ebcnt p.erasesize
          (omega (arith, border, v.crosses, v.inside, v.ready.whole)) in
      omega (arith, mul_mono (block + 1 + 1) s.ebcnt p.erasesize (omega arith), v.ready.whole)

  pub block_inside : (block + 1) * p.erasesize ≤ p.size
  block_inside = omega (arith, behind_inside)

  abbrev pub old : List ℕ
  old = region (h.cell s.world) (block * p.erasesize) p.erasesize

  abbrev pub first_bytes : List ℕ
  first_bytes = region (h.user s.world) buf head

  abbrev pub new : List ℕ
  new = overlay old off first_bytes

  pub length-new : length new ≡ p.erasesize
  length-new =
      length-overlay old off first_bytes (
        omega (
          arith,
          length-region (h.cell s.world) (block * p.erasesize) p.erasesize,
          length-region (h.user s.world) buf head,
          off_lt,
        ))
      ∙ length-region (h.cell s.world) (block * p.erasesize) p.erasesize

  -- The world when the first block has been written, and the driver then.
  abbrev pub world1 : p.World
  world1 = rewritten p h s.world block new

  abbrev pub halfway : Flash p.World
  halfway = record (started p s block) { world = world1; pos = s.pos + head }

  pub halfway-block : halfway.pos / p.erasesize ≡ block + 1
  halfway-block = rw border (mul-div_self (block + 1) p.erasesize v.ready.block_pos)

  pub halfway-IsReady : IsReady p halfway
  halfway-IsReady = record {
    block_pos = v.ready.block_pos;
    fits = v.ready.fits;
    whole = v.ready.whole;
    few = v.ready.few;
    table = length-set s.bbt block 0 ∙ v.ready.table;
    at = omega (arith, v.inside, v.crosses, off_lt);
    known = v.ready.known;
  }

  pub halfway-bad : is_bad p world1 ≡ is_bad p s.world
  halfway-bad = rewritten-bad p h s.world block new block_inside length-new

  pub halfway-lands : lands p halfway ≡ some g
  halfway-lands =
      ap (λ b. first_good (is_bad p world1) (s.ebcnt - b) b) halfway-block
      ∙ ap (λ f. first_good f (s.ebcnt - (block + 1)) (block + 1)) halfway-bad
      ∙ v.finds

  pub second-pos : landing p halfway.pos g ≡ g * p.erasesize
  second-pos = ground (arith, border, halfway-block)

  -- Block `g` is on the device.
  pub next_inside : (g + 1) * p.erasesize ≤ p.size
  next_inside = omega (
    arith,
    mul_mono (g + 1) s.ebcnt p.erasesize
        (omega (arith, (lands_bounds p halfway g halfway-IsReady halfway-lands).1)),
    v.ready.whole,
  )

  abbrev pub second_start : Flash p.World
  second_start = landed p halfway g

  pub second_offset : landing p halfway.pos g % p.erasesize ≡ 0
  second_offset = rw second-pos (mul-mod_self g p.erasesize)

  pub second_search : write_second_block p halfway ≡ next (g, 0) second_start
  unfolding write_second_block
  second_search =
      search-landed p halfway g halfway-IsReady halfway-lands (kfree >> leave (err efault))
        (kfree >> leave (err efault))
      ∙ ap (λ o. next (g, o) second_start) second_offset

  abbrev pub old_next : List ℕ
  old_next = region (h.cell world1) (g * p.erasesize) p.erasesize

  abbrev pub rest_bytes : List ℕ
  rest_bytes = region (h.user world1) (buf + head) rest

  abbrev pub new_next : List ℕ
  new_next = overlay old_next 0 rest_bytes

  pub length-old_next : length old_next ≡ p.erasesize
  length-old_next = length-region (h.cell world1) (g * p.erasesize) p.erasesize

  pub room_next : 0 + length rest_bytes ≤ p.erasesize
  room_next = omega (arith, length-region (h.user world1) (buf + head) rest, v.at_most_block)

  pub length-new_next : length new_next ≡ p.erasesize
  length-new_next =
      length-overlay old_next 0 rest_bytes (omega (arith, room_next, length-old_next))
      ∙ length-old_next
