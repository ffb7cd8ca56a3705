-- ===== src/Flash/Write/Refines.antt =====
-- `at91flash_write` over bad blocks: it writes on in the bytes of the good ones.
use at91_sam9x25_drivers.Prelude.{
  ℕ, ◌+◌, ◌-◌, ◌*◌, ◌/◌, ◌%◌, ◌≤◌, ◌<◌, ◌≡◌, ◌≢◌, refl, sym, ◌∙◌, ap, Bool, false, some, List, ◌++◌,
  length, drop, region, Option-cases, Bool-cases, ltb, ltb→lt, inl, inr, arith,
}
use mathlib.Core.Path.{fun_ext}
use native.Mathlib.Nat.{mod-lt}
use at91_sam9x25_drivers.Kernel.{val}
use at91_sam9x25_drivers.Flash.Board.{Board, IsSized}
use at91_sam9x25_drivers.Flash.Chip.{IsHealthy, patched}
use at91_sam9x25_drivers.Flash.Chip.Patch.{patched_before}
use at91_sam9x25_drivers.Flash.State.{Flash, returned}
use at91_sam9x25_drivers.Flash.Search.Ready.{IsReady, is_bad, first_good}
use at91_sam9x25_drivers.Flash.Search.Lands.{
  landed, landed-IsReady, landed-good, landed-block, landed-forward, lands_bounds,
}
use at91_sam9x25_drivers.Flash.Tape.{tape_from, remaining}
use at91_sam9x25_drivers.Flash.Tape.Reads.{length-tape_from_last}
use at91_sam9x25_drivers.Flash.Tape.Stores.{
  ends_before, tape_from-stored_within, tape_from-stored_across,
}
use at91_sam9x25_drivers.Flash.Read.Landed.{
  tape_from-landed, remaining-landed, lands_somewhere, remaining_fits,
}
use at91_sam9x25_drivers.Flash.Write.{write}
use at91_sam9x25_drivers.Flash.Write.Block.{rewritten-bad}
use at91_sam9x25_drivers.Flash.Write.InBlock.{InBlock, written, new, block_inside, length-new}
use at91_sam9x25_drivers.Flash.Write.Contents.{write_run, written-cells}
use at91_sam9x25_drivers.Flash.Write.Landed.{write-landed}
use at91_sam9x25_drivers.Flash.Write.Straddle.{Straddles}
use at91_sam9x25_drivers.Flash.Write.Split.{finished, split_run, finished-cells, finished-bad}

module _ (p : Board) (sized : IsSized p) (h : IsHealthy p) where
  -- A write to the tape of good bytes: from the position on it has the user's `count` bytes and then what
  -- it had behind them. Nothing before the position changes, and no block turns bad.
  pub record TapeWrite (buf count : ℕ) (s s' : Flash p.World) : Type 0 where
    pub stores :
        tape_from (is_bad p s'.world) (h.cell s'.world) p.erasesize s'.ebcnt s.pos
        ≡ region (h.user s.world) buf count ++ drop count (remaining p h s)
    pub keeps : (x : ℕ) → x < s.pos → h.cell s'.world x ≡ h.cell s.world x
    pub marks_stay : is_bad p s'.world ≡ is_bad p s.world
    pub blocks_stay : s'.ebcnt ≡ s.ebcnt

  module _ (buf count : ℕ) (t : Flash p.World) (v : IsReady p t)
      (good : is_bad p t.world (t.pos / p.erasesize) ≡ false) (lt : t.pos / p.erasesize < t.ebcnt)
      (later : t.pos ≢ 0) (some_bytes : 0 < count) (at_most : count ≤ p.erasesize)
      (enough : count ≤ length (remaining p h t))
      (readable : (a n : ℕ) → buf ≤ a → a + n ≤ buf + count → h.mapped a n) (kbuf : List ℕ)
      (mem : p.kmalloc t.world p.erasesize ≡ some kbuf) where
    abbrev head : ℕ
    head = p.erasesize - t.pos % p.erasesize

    abbrev next_block : ℕ
    next_block = t.pos / p.erasesize + 1

    abbrev bad : ℕ → Bool
    bad = is_bad p t.world

    off_lt : t.pos % p.erasesize < p.erasesize
    off_lt = mod-lt t.pos v.block_pos

    abbrev Served : Type 0
    Served =
        (n : ℕ) × (s' : Flash p.World) × (count ≤ n)
        × (n ≤ p.erasesize)
        × (write p buf count t ≡ returned (val n) s')
        × TapeWrite buf count t s'

    fits : t.pos + count ≤ p.size
    fits = omega (arith, remaining_fits p h t v lt good)

    in_block : count ≤ head → InBlock p sized h t buf count
    in_block le =
        let off_lt' = off_lt in
        record {
          ready = v;
          on_device = omega (arith, fits);
          good = good;
          some_bytes = some_bytes;
          within = omega arith;
          readable = readable buf count (omega arith) (omega arith);
        }

    within : count ≤ head → Served
    within le =
        let i = in_block le in
        let kbuf' = new i in
        let s' = written i kbuf' in
        let cells = fun_ext (written-cells p sized h buf count t i) in
        let bads : is_bad p s'.world ≡ bad =
          rewritten-bad p h t.world (t.pos / p.erasesize) kbuf' (block_inside i) (length-new i) in
        (
          p.erasesize,
          s',
          at_most,
          omega arith,
          write_run p sized h buf count t i kbuf mem later,
          record {
            stores =
                rw (bads, cells)
                  (tape_from-stored_within bad p.erasesize t.ebcnt t.pos v.block_pos lt good
                    (h.cell t.world) (h.user t.world) buf count le);
            keeps = λ x before.
                written-cells p sized h buf count t i x
                ∙ patched_before (h.cell t.world) t.pos (region (h.user t.world) buf count) x
                    before;
            marks_stay = bads;
            blocks_stay = refl;
          },
        )

    straddles :
        head < count
        → (g : ℕ) → first_good bad (t.ebcnt - next_block) next_block ≡ some g
        → Straddles p sized h t buf count g
    straddles more g found =
        let off_lt' = off_lt in
        record {
          ready = v;
          later = later;
          good = good;
          finds = found;
          crosses = omega arith;
          at_most_block = at_most;
          inside = fits;
          readable = readable buf head (omega arith) (omega arith);
          readable_rest = readable (buf + head) (count - head) (omega arith) (omega arith);
        }

    -- A write that goes on behind the block of the position.
    across :
        head < count → (g : ℕ) → first_good bad (t.ebcnt - next_block) next_block ≡ some g → Served
    across more g found =
        let i = straddles more g found in
        let s' = finished p sized h buf count g t i in
        let first = region (h.user t.world) buf head in
        let second = region (h.user t.world) (buf + head) (count - head) in
        let cells = finished-cells p sized h buf count g t i in
        let bads : is_bad p s'.world ≡ bad = finished-bad p sized h buf count g t i in
        let apart : t.pos + head ≤ g * p.erasesize =
          ends_before bad p.erasesize t.ebcnt t.pos v.block_pos lt good (h.cell t.world)
            (h.user t.world) buf count g more at_most found in
        (
          count,
          s',
          omega arith,
          at_most,
          split_run p sized h buf count g t i kbuf mem,
          record {
            stores =
                rw (bads, fun_ext cells)
                  (tape_from-stored_across bad p.erasesize t.ebcnt t.pos v.block_pos lt good
                    (h.cell t.world) (h.user t.world) buf count g more at_most found);
            keeps = λ x before.
                cells x
                ∙ patched_before (λ y. patched (h.cell t.world) t.pos first y) (g * p.erasesize)
                    second x (omega (arith, apart, before))
                ∙ patched_before (h.cell t.world) t.pos first x before;
            marks_stay = bads;
            blocks_stay = refl;
          },
        )

    served : Served
    served = elim (Bool-cases (ltb head count)) [
      | inl e ↦ elim (Option-cases (first_good bad (t.ebcnt - next_block) next_block)) [
        | inl missing ↦
            let all =
              length-tape_from_last bad p.erasesize t.ebcnt t.pos v.block_pos lt good
                (h.cell t.world) missing in
            absurd (omega (arith, all, enough, ltb→lt head count e))
        | inr (g, found) ↦ across (ltb→lt head count e) g found
      ]
      | inr e ↦ within (ground arith)
    ]

  -- A write of at most a block away from position 0, where the good blocks have room for it behind the
  -- position, stores the user's bytes in these blocks one after another, wherever bad ones lie, and
  -- keeps what they hold behind and every cell before; it reports at least the count and at most a
  -- block. The user's buffer can be read, and memory be had.
  pub write-refines :
      (buf count : ℕ) (s : Flash p.World) (kbuf : List ℕ)
      → IsReady p s
      → s.pos ≢ 0
      → 0 < count
      → count ≤ p.erasesize
      → count ≤ length (remaining p h s)
      → ((a n : ℕ) → buf ≤ a → a + n ≤ buf + count → h.mapped a n)
      → p.kmalloc s.world p.erasesize ≡ some kbuf
      → (n : ℕ) × (s' : Flash p.World) × (count ≤ n)
        × (n ≤ p.erasesize)
        × (write p buf count s ≡ returned (val n) s')
        × TapeWrite buf count s s'
  write-refines buf count s kbuf v later some_bytes at_most enough readable mem =
      let (g, found) = lands_somewhere p h s (omega arith) in
      let at = landed p s g in
      let same = remaining-landed p h s g v found in
      let forward = landed-forward p s g v found in
      let ready = landed-IsReady p s g v found in
      let good : is_bad p s.world (at.pos / p.erasesize) ≡ false =
        rw (landed-block p s g v found) (landed-good p s g v found) in
      let lt : at.pos / p.erasesize < s.ebcnt =
        rw (landed-block p s g v found) (lands_bounds p s g v found).1 in
      let fits : at.pos + count ≤ p.size =
        omega (arith, remaining_fits p h at ready lt good, ap length same) in
      let (n, s', ge, le, runs, tape_write) =
        served buf count at ready good lt (omega (arith, forward, later)) some_bytes at_most
          (rw same enough) readable kbuf mem in
      let stored = tape_write.stores in
      (
        n,
        s',
        ge,
        le,
        write-landed p buf count s g v found some_bytes at_most fits ∙ runs,
        record {
          stores =
              rw (tape_write.marks_stay, tape_write.blocks_stay)
                (sym (tape_from-landed p h s g v found (h.cell s'.world)))
              ∙ (rw (tape_write.marks_stay, tape_write.blocks_stay) at stored)
              ∙ ap (λ xs. region (h.user s.world) buf count ++ drop count xs) same;
          keeps = λ x before. tape_write.keeps x (omega (arith, before, forward));
          marks_stay = tape_write.marks_stay;
          blocks_stay = tape_write.blocks_stay;
        },
      )
