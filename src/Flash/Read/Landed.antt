-- ===== src/Flash/Read/Landed.antt =====
-- A read that starts in a bad block, and what is left to read then.
use at91_sam9x25_drivers.Prelude.{
  ℕ, ◌+◌, ◌-◌, ◌*◌, ◌/◌, ◌%◌, ◌≤◌, ◌<◌, ◌≡◌, refl, sym, ◌∙◌, ap, false, some, length, region,
  length-region, length-append, if◌then◌else◌, ◌==◌, Option-cases, inl, inr, arith,
}
use native.Mathlib.Nat.{add-mul, mod-lt, div-add-mod'}
use at91_sam9x25_drivers.Kernel.{err, efault}
use at91_sam9x25_drivers.Flash.Board.{Board}
use at91_sam9x25_drivers.Flash.Chip.{IsHealthy}
use at91_sam9x25_drivers.Flash.State.{Flash, leave}
use at91_sam9x25_drivers.Flash.Search.{read_first_block}
use at91_sam9x25_drivers.Flash.Search.Ready.{IsReady, is_bad}
use at91_sam9x25_drivers.Flash.Search.Found.{landing}
use at91_sam9x25_drivers.Flash.Search.Lands.{
  landed-IsReady, landed-block, lands, landed, landed-good, lands_bounds, search-rests,
}
use at91_sam9x25_drivers.Flash.Tape.{tape, tape_from, remaining}
use at91_sam9x25_drivers.Flash.Tape.Laws.{length-tape, tape-none, tape-some, tape_from-good}
use at91_sam9x25_drivers.Flash.Read.{read}

module _ (p : Board) (s : Flash p.World) (g : ℕ) (v : IsReady p s) (e : lands p s ≡ some g) where
  -- A read behind bad blocks is one from the next good block.
  pub read-landed : (buf count : ℕ) → read p buf count s ≡ read p buf count (landed p s g)
  unfolding read read_first_block
  read-landed buf count = rw (search-rests p s g v e (leave (err efault)) (leave (err efault))) refl

module _ (p : Board) (h : IsHealthy p) where
  module _ (s : Flash p.World) (g : ℕ) (v : IsReady p s) (e : lands p s ≡ some g) where
    -- The search loses none of the good bytes, whatever is in the cells.
    pub tape_from-landed :
        (cell : ℕ → ℕ)
        → tape_from (is_bad p s.world) cell p.erasesize s.ebcnt (landing p s.pos g)
          ≡ tape_from (is_bad p s.world) cell p.erasesize s.ebcnt s.pos
    tape_from-landed cell =
        let b = s.pos / p.erasesize in
        let off = if g == b then s.pos % p.erasesize else 0 in
        let off_le : off ≤ p.erasesize = ground (arith, mod-lt s.pos v.block_pos) in
        let place : landing p s.pos g ≡ g * p.erasesize + off =
          ground (arith, div-add-mod' s.pos p.erasesize) in
        let size : b + (s.ebcnt - b) ≡ s.ebcnt = omega (arith, lands_bounds p s g v e) in
        let first =
          (tape-some (is_bad p s.world) cell p.erasesize (s.ebcnt - b) b (s.pos % p.erasesize) g
            e).3 in
        tape_from-good (is_bad p s.world) cell p.erasesize s.ebcnt (landing p s.pos g) g off
          (landed-good p s g v e) (lands_bounds p s g v e).1 v.block_pos place off_le
        ∙ rw place (sym (rw size at first))

    pub remaining-landed : remaining p h (landed p s g) ≡ remaining p h s
    remaining-landed = tape_from-landed (h.cell s.world)

  -- Where bytes are left, a good block is.
  pub lands_somewhere :
      (s : Flash p.World) → 0 < length (remaining p h s) → (g : ℕ) × (lands p s ≡ some g)
  lands_somewhere s some_left = elim (Option-cases (lands p s)) [
    | inl missing ↦
        let empty =
          tape-none (is_bad p s.world) (h.cell s.world) p.erasesize (s.ebcnt - s.pos / p.erasesize)
            (s.pos / p.erasesize) (s.pos % p.erasesize) missing in
        absurd (omega (arith, ap length empty))
    | inr found ↦ found
  ]

  -- What remains fits the device.
  pub remaining_fits :
      (s : Flash p.World)
      → IsReady p s
      → s.pos / p.erasesize < s.ebcnt
      → is_bad p s.world (s.pos / p.erasesize) ≡ false
      → s.pos + length (remaining p h s) ≤ p.size
  remaining_fits s v lt good =
      let off_lt : s.pos % p.erasesize < p.erasesize = mod-lt s.pos v.block_pos in
      let b = s.pos / p.erasesize in
      let head = p.erasesize - s.pos % p.erasesize in
      let behind =
        tape (is_bad p s.world) (h.cell s.world) p.erasesize (s.ebcnt - (b + 1)) (b + 1) 0 in
      let here =
        tape_from-good (is_bad p s.world) (h.cell s.world) p.erasesize s.ebcnt s.pos b
          (s.pos % p.erasesize) good lt v.block_pos (sym (div-add-mod' s.pos p.erasesize))
          (omega arith) in
      let blocks : (b + 1) * p.erasesize + (s.ebcnt - (b + 1)) * p.erasesize
          ≡ s.ebcnt * p.erasesize =
        sym (add-mul (b + 1) (s.ebcnt - (b + 1)) p.erasesize)
        ∙ ap (λ n. n * p.erasesize) (omega arith) in
      rw here (
        omega (
          arith,
          length-append (region (h.cell s.world) s.pos head) behind,
          length-region (h.cell s.world) s.pos head,
          length-tape (is_bad p s.world) (h.cell s.world) p.erasesize (s.ebcnt - (b + 1)) (b + 1) 0,
          div-add-mod' s.pos p.erasesize,
          blocks,
          v.whole,
        ))

  -- So does what remains behind the block that a search finds.
  pub landed_room :
      (s : Flash p.World) (g : ℕ) (v : IsReady p s) (e : lands p s ≡ some g)
      → (landed p s g).pos + length (remaining p h s) ≤ p.size
  landed_room s g v e =
      let lt : (landed p s g).pos / p.erasesize < s.ebcnt =
        rw (landed-block p s g v e) (lands_bounds p s g v e).1 in
      let good : is_bad p s.world ((landed p s g).pos / p.erasesize) ≡ false =
        rw (landed-block p s g v e) (landed-good p s g v e) in
      omega (
        arith,
        remaining_fits (landed p s g) (landed-IsReady p s g v e) lt good,
        ap length (remaining-landed s g v e),
      )
