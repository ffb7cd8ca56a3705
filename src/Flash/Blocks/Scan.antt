-- ===== src/Flash/Blocks/Scan.antt =====
-- What `scan_for_bad_eraseblocks` leaves in the table of bad blocks.
use at91_sam9x25_drivers.Prelude.{
  ℕ, zero, suc, ◌+◌, ◌≤◌, ◌<◌, ◌≡◌, refl, ◌∙◌, Bool, some, List, length, set, get_or, replicate,
  if_true, length-set, get_or-set_self, get_or-set_ne, if◌then◌else◌, arith,
}
use native.Mathlib.Decide.{ℕ_discrete}
use at91_sam9x25_drivers.Kernel.{val}
use at91_sam9x25_drivers.Flash.Board.{Board}
use at91_sam9x25_drivers.Flash.State.{Flash, next, returned}
use at91_sam9x25_drivers.Flash.Blocks.{scan_from, scan_for_bad_eraseblocks}
use at91_sam9x25_drivers.Flash.Search.Ready.{IsReady, is_bad, check_block_lem}

module _ (p : Board) where
  -- The table after `n` rounds from block `i` on, and the number of bad blocks among these.
  abbrev scan_table : (ℕ → Bool) → ℕ → ℕ → List ℕ → List ℕ
  scan_table bad zero i bbt = bbt
  scan_table bad (suc n) i bbt = scan_table bad n (i + 1) (set bbt i (if bad i then 1 else 0))

  abbrev scan_count : (ℕ → Bool) → ℕ → ℕ → ℕ → ℕ
  scan_count bad zero i n = n
  scan_count bad (suc k) i n = scan_count bad k (i + 1) (if bad i then n + 1 else n)

  length-scan_table :
      (bad : ℕ → Bool) (n i : ℕ) (bbt : List ℕ) → length (scan_table bad n i bbt) ≡ length bbt
  length-scan_table bad zero i bbt = refl
  length-scan_table bad (suc n) i bbt =
      length-scan_table bad n (i + 1) (set bbt i (if bad i then 1 else 0))
      ∙ length-set bbt i (if bad i then 1 else 0)

  scan_table-before :
      (bad : ℕ → Bool) (n i j : ℕ) (bbt : List ℕ)
      → j < i
      → get_or (scan_table bad n i bbt) j 0 ≡ get_or bbt j 0
  scan_table-before bad zero i j bbt lt = refl
  scan_table-before bad (suc n) i j bbt lt =
      scan_table-before bad n (i + 1) j (set bbt i (if bad i then 1 else 0)) (omega arith)
      ∙ get_or-set_ne bbt i j (if bad i then 1 else 0) 0 (λ e. omega arith)

  scan_table-in :
      (bad : ℕ → Bool) (n i j : ℕ) (bbt : List ℕ)
      → i ≤ j
      → j < i + n
      → i + n ≤ length bbt
      → get_or (scan_table bad n i bbt) j 0 ≡ (if bad j then 1 else 0)
  scan_table-in bad zero i j bbt le lt fits = absurd (omega arith)
  scan_table-in bad (suc n) i j bbt le lt fits = elim (ℕ_discrete i j) [
    | yes e ↦ rw (← e) (
        scan_table-before bad n (i + 1) i (set bbt i (if bad i then 1 else 0)) (omega arith)
        ∙ get_or-set_self bbt i (if bad i then 1 else 0) 0 (omega arith))
    | no ne ↦
        scan_table-in bad n (i + 1) j (set bbt i (if bad i then 1 else 0)) (omega arith)
          (omega arith) (omega (arith, length-set bbt i (if bad i then 1 else 0)))
  ]

  scan_from_lem :
      (n i c : ℕ) (s : Flash p.World)
      → IsReady p s
      → i + n ≤ s.ebcnt
      → scan_from p n i c s
        ≡ next
            (scan_count (is_bad p s.world) n i c)
            (record s { bbt = scan_table (is_bad p s.world) n i s.bbt })
  unfolding scan_from
  scan_from_lem zero i c s v le = refl
  scan_from_lem (suc n) i c s v le =
      rw (check_block_lem p s i v (omega arith))
        (scan_from_lem n (i + 1) (if is_bad p s.world i then c + 1 else c) s1 ready (omega arith))
    where
      s1 : Flash p.World
      s1 = record s { bbt = set s.bbt i (if is_bad p s.world i then 1 else 0) }

      ready : IsReady p s1
      ready = record {
        block_pos = v.block_pos;
        fits = v.fits;
        whole = v.whole;
        few = v.few;
        table = length-set s.bbt i (if is_bad p s.world i then 1 else 0) ∙ v.table;
        at = v.at;
        known = v.known;
      }

  -- On a device of whole blocks, with memory for the table, the scan ends with result 0 in a
  -- well-formed state, in which the table has a 1 for each bad block and a 0 for each good one.
  pub scan-marks_bad :
      (s : Flash p.World) {table : List ℕ}
      → p.kmalloc s.world s.ebcnt ≡ some table
      → IsReady p (record s { bbt = replicate s.ebcnt 0 })
      → (s' : Flash p.World) × (scan_for_bad_eraseblocks p s ≡ returned (val 0) s')
        × IsReady p s'
        × ((b : ℕ) → b < s.ebcnt → get_or s'.bbt b 0 ≡ (if is_bad p s.world b then 1 else 0))
  unfolding scan_for_bad_eraseblocks
  scan-marks_bad s mem v = (
    record s { bbt = scan_table (is_bad p s.world) s.ebcnt 0 (replicate s.ebcnt 0) },
    rw mem (
        if_true _ _ v.known
        ∙ rw (scan_from_lem s.ebcnt 0 0 (record s { bbt = replicate s.ebcnt 0 }) v (omega arith))
            refl),
    record {
      block_pos = v.block_pos;
      fits = v.fits;
      whole = v.whole;
      few = v.few;
      table = length-scan_table (is_bad p s.world) s.ebcnt 0 (replicate s.ebcnt 0) ∙ v.table;
      at = v.at;
      known = v.known;
    },
    λ b lt.
        scan_table-in (is_bad p s.world) s.ebcnt 0 b (replicate s.ebcnt 0) (omega arith)
          (omega arith) (omega (arith, v.table)),
  )
