-- ===== src/Flash/Read/Refines.antt =====
-- `at91flash_read` over bad blocks: it reads on in the bytes of the good ones.
use at91_sam9x25_drivers.Prelude.{
  ℕ, ◌+◌, ◌-◌, ◌/◌, ◌%◌, ◌≤◌, ◌<◌, ◌≡◌, sym, ◌∙◌, ap, Bool, false, some, List, length, take, drop,
  region, region-take, get_or, Option-cases, Bool-cases, ltb, ltb→lt, inl, inr, arith, mul_mono,
}
use native.Mathlib.Nat.{mod-lt}
use at91_sam9x25_drivers.Kernel.{val}
use at91_sam9x25_drivers.Flash.Board.{Board}
use at91_sam9x25_drivers.Flash.Chip.{IsHealthy}
use at91_sam9x25_drivers.Flash.Chip.Patch.{patched-region}
use at91_sam9x25_drivers.Flash.State.{Flash, returned}
use at91_sam9x25_drivers.Flash.Search.Ready.{IsReady, is_bad, first_good}
use at91_sam9x25_drivers.Flash.Search.Lands.{
  landed, landed-IsReady, landed-good, landed-block, lands_bounds,
}
use at91_sam9x25_drivers.Flash.Tape.{tape_from, remaining}
use at91_sam9x25_drivers.Flash.Tape.Reads.{
  next_bounds, length-tape_from_last, get_or-tape_from_here, drop-tape_from_here,
  get_or-tape_from_next, drop-tape_from_next,
}
use at91_sam9x25_drivers.Flash.Read.{read, max_kmalloc_size}
use at91_sam9x25_drivers.Flash.Read.Contents.{Asks, SameChip, read-delivers}
use at91_sam9x25_drivers.Flash.Read.Landed.{
  read-landed, remaining-landed, lands_somewhere, remaining_fits,
}
use at91_sam9x25_drivers.Flash.Read.Split.{read-crosses}

module _ (p : Board) (h : IsHealthy p) where
  -- A read from the tape of good bytes: the next `count` of them go to the user, and are gone from
  -- what remains.
  pub record TapeRead (buf count : ℕ) (s s' : Flash p.World) : Type 0 where
    pub hands : region (h.user s'.world) buf count ≡ take count (remaining p h s)
    pub goes_on : remaining p h s' ≡ drop count (remaining p h s)

  -- From a good block on, the device reads as the rest of this block and the blocks behind it.
  module _ (buf count : ℕ) (t : Flash p.World) (v : Asks p h t buf count)
      (lt : t.pos / p.erasesize < t.ebcnt)
      (readable : (a n : ℕ) → buf ≤ a → a + n ≤ buf + count → h.mapped a n) {readbuf : List ℕ}
      (mem : p.kmalloc t.world count ≡ some readbuf) where
    abbrev head : ℕ
    head = p.erasesize - t.pos % p.erasesize

    abbrev next_block : ℕ
    next_block = t.pos / p.erasesize + 1

    abbrev bad : ℕ → Bool
    bad = is_bad p t.world

    abbrev cells : ℕ → ℕ
    cells = h.cell t.world

    off_lt : t.pos % p.erasesize < p.erasesize
    off_lt = mod-lt t.pos v.ready.block_pos

    -- What a read has to do for the tape.
    tape_read :
        (s' : Flash p.World)
        → SameChip p h t.world s'.world
        → s'.ebcnt ≡ t.ebcnt
        → count ≤ length (remaining p h t)
        → ((i : ℕ) → i < count → h.user s'.world (buf + i) ≡ get_or (remaining p h t) i 0)
        → drop count (remaining p h t) ≡ tape_from bad cells p.erasesize t.ebcnt s'.pos
        → TapeRead buf count t s'
    tape_read s' chip blocks enough user left = record {
      hands = region-take (h.user s'.world) buf count (remaining p h t) 0 enough user;
      goes_on = rw (chip.cells, chip.bad, blocks) (sym left);
    }

    abbrev Served : Type 0
    Served =
        (n : ℕ) × (s' : Flash p.World) × (0 < n)
        × (n ≤ count)
        × (read p buf count t ≡ returned (val n) s')
        × TapeRead buf count t s'

    within : count ≤ head → count ≤ length (remaining p h t) → Served
    within le enough =
        let off_lt' = off_lt in
        let (s', runs, at, stored, chip, blocks) =
          read-delivers p h buf count t v mem (omega arith)
            (readable buf count (omega arith) (omega arith)) in
        (
          count,
          s',
          v.some_bytes,
          omega arith,
          runs,
          tape_read s' chip blocks enough
              (λ i lti.
                stored (buf + i)
                ∙ patched-region (h.user t.world) cells buf t.pos count i lti
                ∙ sym (
                    get_or-tape_from_here bad p.erasesize t.ebcnt t.pos v.ready.block_pos lt v.good
                      cells i (omega arith)))
              (drop-tape_from_here bad p.erasesize t.ebcnt t.pos v.ready.block_pos lt v.good cells
                  count le
                ∙ ap (tape_from bad cells p.erasesize t.ebcnt) (sym at)),
        )

    -- A read that goes on behind the block of the position.
    across :
        head < count
        → count ≤ p.erasesize
        → count ≤ length (remaining p h t)
        → (g : ℕ) → first_good bad (t.ebcnt - next_block) next_block ≡ some g
        → Served
    across more at_most enough g found =
        let off_lt' = off_lt in
        let rest = count - head in
        let whole : head + rest ≡ count = omega arith in
        let bounds =
          next_bounds bad p.erasesize t.ebcnt t.pos v.ready.block_pos lt v.good cells g found in
        let g_end = mul_mono (g + 1) t.ebcnt p.erasesize (omega (arith, bounds.1)) in
        let (s', runs, at, first_user, rest_user, chip, blocks) =
          read-crosses p h buf count t v g more (readable buf head (omega arith) (omega arith))
            (readable (buf + head) rest (omega arith) (omega arith)) found
            (omega (arith, g_end, v.ready.whole)) mem in
        let left =
          drop-tape_from_next bad p.erasesize t.ebcnt t.pos v.ready.block_pos lt v.good cells g
            found rest (omega arith) in
        (
          rest,
          s',
          omega arith,
          omega arith,
          runs,
          tape_read s' chip blocks enough
              (λ i lti. elim (Bool-cases (ltb i head)) [
                | inl e ↦
                    first_user i (ltb→lt i head e)
                    ∙ sym (
                        get_or-tape_from_here bad p.erasesize t.ebcnt t.pos v.ready.block_pos lt
                          v.good cells i (ltb→lt i head e))
                | inr e ↦
                    let past : head ≤ i = ground arith in
                    let here : head + (i - head) ≡ i = omega arith in
                    ap (h.user s'.world) {x = buf + i} {y = buf + head + (i - head)} (omega arith)
                    ∙ rest_user (i - head) (omega arith)
                    ∙ sym (
                        get_or-tape_from_next bad p.erasesize t.ebcnt t.pos v.ready.block_pos lt
                          v.good cells g found (i - head) (omega arith))
                    ∙ ap (λ k. get_or (remaining p h t) k 0) here
              ])
              ((rw whole at left) ∙ ap (tape_from bad cells p.erasesize t.ebcnt) (sym at)),
        )

    served : count ≤ p.erasesize → count ≤ length (remaining p h t) → Served
    served at_most enough = elim (Bool-cases (ltb head count)) [
      | inl e ↦ elim (Option-cases (first_good bad (t.ebcnt - next_block) next_block)) [
        | inl missing ↦
            let all =
              length-tape_from_last bad p.erasesize t.ebcnt t.pos v.ready.block_pos lt v.good cells
                missing in
            absurd (omega (arith, all, enough, ltb→lt head count e))
        | inr (g, found) ↦ across (ltb→lt head count e) at_most enough g found
      ]
      | inr e ↦ within (ground arith) enough
    ]

  -- A read of at least a byte, at most a block and at most 128 KiB, where as many bytes are left in the
  -- good blocks, hands the user the next `count` of these bytes, wherever bad blocks lie, and leaves what
  -- comes after them for the reads to come; it reports at least one byte and at most `count`. The user's
  -- buffer can be written, and memory be had.
  pub read-refines :
      (buf count : ℕ) (s : Flash p.World) {readbuf : List ℕ}
      → IsReady p s
      → 0 < count
      → count ≤ p.erasesize
      → count ≤ max_kmalloc_size
      → count ≤ length (remaining p h s)
      → ((a n : ℕ) → buf ≤ a → a + n ≤ buf + count → h.mapped a n)
      → p.kmalloc s.world count ≡ some readbuf
      → (n : ℕ) × (s' : Flash p.World) × (0 < n)
        × (n ≤ count)
        × (read p buf count s ≡ returned (val n) s')
        × TapeRead buf count s s'
  read-refines buf count s v some_bytes at_most moderate enough readable mem =
      let (g, found) = lands_somewhere p h s (omega arith) in
      let at = landed p s g in
      let same = remaining-landed p h s g v found in
      let ready = landed-IsReady p s g v found in
      let good : is_bad p s.world (at.pos / p.erasesize) ≡ false =
        rw (landed-block p s g v found) (landed-good p s g v found) in
      let lt : at.pos / p.erasesize < s.ebcnt =
        rw (landed-block p s g v found) (lands_bounds p s g v found).1 in
      let asks : Asks p h at buf count = record {
        ready = ready;
        good = good;
        some_bytes = some_bytes;
        moderate = moderate;
        inside = omega (arith, remaining_fits p h at ready lt good, ap length same);
      } in
      let (n, s', positive, le, runs, tape_read) =
        served buf count at asks lt readable mem at_most (rw same enough) in
      (
        n,
        s',
        positive,
        le,
        read-landed p s g v found buf count ∙ runs,
        record {
          hands = tape_read.hands ∙ ap (take count) same;
          goes_on = tape_read.goes_on ∙ ap (drop count) same;
        },
      )
