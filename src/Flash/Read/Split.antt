-- ===== src/Flash/Read/Split.antt =====
-- `at91flash_read` across the border of two good blocks, on a chip that works.
use at91_sam9x25_drivers.Prelude.{
  ℕ, ◌+◌, ◌-◌, ◌*◌, ◌/◌, ◌%◌, ◌^◌, ◌≤◌, ◌<◌, ◌≡◌, refl, ◌∙◌, ap, some, List, length, region, arith,
  length-region, lt→ltb, mul-div_self, length-set,
}
use native.Mathlib.Nat.{mod-lt}
use at91_sam9x25_drivers.Kernel.{val, err, efault, u32}
use at91_sam9x25_drivers.Flash.Board.{Board}
use at91_sam9x25_drivers.Flash.Chip.{IsHealthy}
use at91_sam9x25_drivers.Flash.Chip.Patch.{patched-region, patched_before}
use at91_sam9x25_drivers.Flash.State.{Flash, next, returned, leave, kfree, ◌>>◌}
use at91_sam9x25_drivers.Flash.Search.{read_second_block}
use at91_sam9x25_drivers.Flash.Search.Ready.{IsReady, is_bad, first_good}
use at91_sam9x25_drivers.Flash.Search.Found.{landing}
use at91_sam9x25_drivers.Flash.Search.Lands.{lands, landed, search-landed}
use at91_sam9x25_drivers.Flash.Read.{read_split, read_from, read}
use at91_sam9x25_drivers.Flash.Read.Contents.{
  SameChip, delivered-SameChip, started, read_chunk-works, deliver-works, delivered, Asks,
  start_split, read_starts, no_wrap, block_end,
}

module _ (p : Board) (h : IsHealthy p) (buf count : ℕ) (s : Flash p.World)
    (v : Asks p h s buf count) where
  -- The part of the request in the first block, and that in the second.
  abbrev head : ℕ
  head = p.erasesize - s.pos % p.erasesize

  abbrev rest : ℕ
  rest = count - head

  abbrev first_bytes : List ℕ
  first_bytes = region (h.cell s.world) s.pos head

  -- The state before the second search.
  abbrev halfway : Flash p.World
  halfway = delivered p h (started p h s (s.pos / p.erasesize)) buf first_bytes

  head_pos : 0 < head
  head_pos =
      let lt : s.pos % p.erasesize < p.erasesize = mod-lt s.pos v.ready.block_pos in omega arith

  border : s.pos + head ≡ (s.pos / p.erasesize + 1) * p.erasesize
  border =
      let lt : s.pos % p.erasesize < p.erasesize = mod-lt s.pos v.ready.block_pos in
      omega (arith, start_split p h buf count s v)

  length-first : length first_bytes ≡ head
  length-first = length-region (h.cell s.world) s.pos head

  -- The rest comes from block `g`, the first good one behind that of the position.
  module _ (g : ℕ) (crosses : head < count) (mapped : h.mapped buf head)
      (mapped' : h.mapped (buf + head) rest)
      (finds : first_good
          (is_bad p s.world)
          (s.ebcnt - (s.pos / p.erasesize + 1))
          (s.pos / p.erasesize + 1)
        ≡ some g)
      (inside : g * p.erasesize + rest ≤ p.size) where
    halfway-pos : halfway.pos ≡ (s.pos / p.erasesize + 1) * p.erasesize
    unfolding delivered
    halfway-pos = rw length-first border

    halfway-block : halfway.pos / p.erasesize ≡ s.pos / p.erasesize + 1
    halfway-block =
        rw halfway-pos (mul-div_self (s.pos / p.erasesize + 1) p.erasesize v.ready.block_pos)

    halfway-IsReady : IsReady p halfway
    unfolding delivered
    halfway-IsReady = record {
      block_pos = v.ready.block_pos;
      fits = v.ready.fits;
      whole = v.ready.whole;
      few = v.ready.few;
      table = length-set s.bbt (s.pos / p.erasesize) 0 ∙ v.ready.table;
      at = omega (arith, length-first, v.inside, crosses);
      known = v.ready.known;
    }

    halfway-SameChip : SameChip p h s.world halfway.world
    halfway-SameChip = delivered-SameChip p h (started p h s (s.pos / p.erasesize)) buf first_bytes

    halfway-lands : lands p halfway ≡ some g
    unfolding delivered
    halfway-lands =
        ap (λ b. first_good (is_bad p halfway.world) (s.ebcnt - b) b) halfway-block
        ∙ ap (λ f. first_good f (s.ebcnt - (s.pos / p.erasesize + 1)) (s.pos / p.erasesize + 1))
            halfway-SameChip.bad
        ∙ finds

    second_search :
        read_second_block p (length first_bytes) halfway
        ≡ next (g, landing p halfway.pos g % p.erasesize) (landed p halfway g)
    unfolding read_second_block
    second_search =
        search-landed p halfway g halfway-IsReady halfway-lands
          (kfree >> leave (val (length first_bytes))) (kfree >> leave (err efault))

    second-pos : landing p halfway.pos g ≡ g * p.erasesize
    second-pos = ground (arith, halfway-pos, halfway-block)

    abbrev second_start : Flash p.World
    second_start = landed p halfway g

    abbrev rest_bytes : List ℕ
    rest_bytes = region (h.cell halfway.world) second_start.pos rest

    length-rest : length rest_bytes ≡ rest
    length-rest = length-region (h.cell halfway.world) second_start.pos rest

    abbrev finished : Flash p.World
    finished = delivered p h second_start (buf + head) rest_bytes

    split_runs :
        read_split p buf count (s.pos / p.erasesize) (started p h s (s.pos / p.erasesize))
        ≡ returned (val rest) (record finished { held = finished.held - 1 })
    unfolding read_split
    split_runs =
        let s1 = started p h s (s.pos / p.erasesize) in
        let head_len : u32 ((s.pos / p.erasesize + 1) * p.erasesize + 2 ^ 64 - s.pos) ≡ head =
          omega (arith, border, v.ready.fits, v.inside, crosses) in
        let rest_len : u32 (count + 2 ^ 32 - length first_bytes) ≡ rest =
          omega (arith, length-first, v.moderate, crosses) in
        let readable : h.mapped buf (length first_bytes) = rw length-first mapped in
        let readable' : h.mapped (buf + head) (length rest_bytes) = rw length-rest mapped' in
        let some_rest : 0 < length rest_bytes = omega (arith, length-rest, crosses) in
        rw
          (
            block_end p h buf count s v,
            head_len,
            read_chunk-works p h count head s1 (omega (arith, crosses))
                (omega (arith, crosses, v.inside)),
            deliver-works p h buf first_bytes s1 (omega (arith, length-first, head_pos)) readable,
            second_search,
            rest_len,
            read_chunk-works p h count rest second_start (omega arith)
                (omega (arith, second-pos, inside)),
            length-first,
            deliver-works p h (buf + head) rest_bytes second_start some_rest readable',
            length-rest,
          )
          refl

    -- The user's memory has the cells of the first block, then those of block `g`.
    finished-head :
        (i : ℕ) → i < head → h.user finished.world (buf + i) ≡ h.cell s.world (s.pos + i)
    unfolding delivered
    finished-head i lt =
        h.copy_out_user _ (buf + head) rest_bytes (buf + i) (rw length-rest mapped')
        ∙ patched_before (h.user second_start.world) (buf + head) rest_bytes (buf + i) (omega arith)
        ∙ h.copy_out_user s.world buf first_bytes (buf + i) (rw length-first mapped)
        ∙ patched-region (h.user s.world) (h.cell s.world) buf s.pos head i lt

    finished-rest :
        (i : ℕ)
        → i < rest
        → h.user finished.world (buf + head + i) ≡ h.cell s.world (g * p.erasesize + i)
    unfolding delivered
    finished-rest i lt =
        h.copy_out_user _ (buf + head) rest_bytes (buf + head + i) (rw length-rest mapped')
        ∙ patched-region (h.user second_start.world) (h.cell halfway.world) (buf + head)
            second_start.pos rest i lt
        ∙ h.copy_out_cell s.world buf first_bytes (second_start.pos + i)
        ∙ ap (λ a. h.cell s.world (a + i)) second-pos

    finished-SameChip : SameChip p h s.world finished.world
    finished-SameChip =
        let second = delivered-SameChip p h second_start (buf + head) rest_bytes in
        record {
          cells = second.cells ∙ halfway-SameChip.cells;
          bad = second.bad ∙ halfway-SameChip.bad;
        }

    finished-pos : finished.pos ≡ g * p.erasesize + rest
    unfolding delivered
    finished-pos = omega (arith, length-rest, second-pos)

    -- A read that goes on past its first, good block hands the user the rest of that block and then
    -- the bytes of block `g`, the next good one, and leaves the position behind them; but it returns
    -- only the number of bytes of the second block. The chip stays.
    pub read-crosses :
        {readbuf : List ℕ}
        → p.kmalloc s.world count ≡ some readbuf
        → (s' : Flash p.World) × (read p buf count s ≡ returned (val rest) s')
          × (s'.pos ≡ g * p.erasesize + rest)
          × ((i : ℕ) → i < head → h.user s'.world (buf + i) ≡ h.cell s.world (s.pos + i))
          × ((i : ℕ)
              → i < rest
              → h.user s'.world (buf + head + i) ≡ h.cell s.world (g * p.erasesize + i))
          × SameChip p h s.world s'.world
          × (s'.ebcnt ≡ s.ebcnt)
    unfolding read_from delivered
    read-crosses mem = (
      record finished { held = finished.held - 1 },
      read_starts p h buf count s v mem
          ∙ rw
              (
                no_wrap p h buf count s v,
                block_end p h buf count s v,
                lt→ltb ((s.pos / p.erasesize + 1) * p.erasesize) (s.pos + count)
                    (omega (arith, border, crosses)),
              )
              split_runs,
      finished-pos,
      finished-head,
      finished-rest,
      finished-SameChip,
      refl,
    )
