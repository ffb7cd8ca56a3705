-- ===== src/Flash/Blocks.antt =====
-- `is_block_bad`, `scan_for_bad_eraseblocks` and `erase_eraseblock` of flash/at91flash.c.
pub mod Scan
use at91_sam9x25_drivers.Prelude.{
  ℕ, zero, suc, ◌+◌, ◌*◌, Bool, true, false, Option, none, some, List, [], ◌∷◌, length, set,
  replicate, ltb, if◌then◌else◌,
}
use at91_sam9x25_drivers.Kernel.{Ret, val, err, eio, enomem, is_nonzero, u32}
use at91_sam9x25_drivers.Flash.Board.{Board}
use at91_sam9x25_drivers.Flash.State.{
  Flash, Out, next, returned, fault, Action, and_then, ◌>>=◌, ◌>>◌, pure, leave, crash, gets,
}

module _ (p : Board) where
  -- `is_block_bad`: a call through a NULL `block_isbad` is a fault.
  unfoldable pub is_block_bad : ℕ → Action p.World Ret
  is_block_bad ebnum s =
      if p.has_isbad then next (p.block_isbad s.world (u32 (ebnum * p.erasesize))) s else fault

  -- `bbt[ebnum] = v`
  unfoldable pub set_bbt : ℕ → ℕ → Action p.World (Unit {0})
  set_bbt ebnum v s =
      if ltb ebnum (length s.bbt) then next tt (record s { bbt = set s.bbt ebnum v }) else fault

  -- `bbt[ebnum] = is_block_bad(ebnum) ? 1 : 0`, and then its test
  unfoldable pub check_block : ℕ → Action p.World Bool
  check_block ebnum = do
    ret ← is_block_bad ebnum
    let bad = is_nonzero ret
    set_bbt ebnum (if bad then 1 else 0)
    pure bad

  -- The loop of the scan, from block `i` on for `n` blocks, and its count of bad blocks.
  unfoldable pub scan_from : ℕ → ℕ → ℕ → Action p.World ℕ
  scan_from zero i bad s = next bad s
  scan_from (suc n) i bad s =
      and_then (check_block i s) (λ b. scan_from n (i + 1) (if b then bad + 1 else bad))

  -- `scan_for_bad_eraseblocks`: `bbt` comes zeroed from `kzalloc`. The count is only printed.
  abbrev pub scan_with : Option (List ℕ) → Action p.World (Unit {0})
  scan_with none s = returned (err enomem) s
  scan_with (some _) s =
      let s' = record s { bbt = replicate s.ebcnt 0 } in
      if p.has_isbad
      then and_then (scan_from s.ebcnt 0 0 s') (λ _. leave (val 0))
      else returned (val 0) s'

  unfoldable pub scan_for_bad_eraseblocks : Action p.World (Unit {0})
  scan_for_bad_eraseblocks s = scan_with (p.kmalloc s.world s.ebcnt) s

  -- `erase_eraseblock`
  unfoldable pub erase_eraseblock : ℕ → Action p.World Ret
  erase_eraseblock ebnum s =
      let (r, failed, w) = p.mtd_erase s.world (u32 (ebnum * p.erasesize)) p.erasesize in
      let s' = record s { world = w } in
      if is_nonzero r then next r s' else if failed then next (err eio) s' else next (val 0) s'
