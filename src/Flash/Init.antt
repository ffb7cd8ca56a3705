-- ===== src/Flash/Init.antt =====
-- `at91flash_init` and `at91flash_exit` of flash/at91flash.c, and what they acquire and release.
pub mod Laws
use at91_sam9x25_drivers.Prelude.{
  ◌>>=◌, ℕ, zero, suc, ◌/◌, ◌+◌, Bool, true, false, Option, none, some, if◌then◌else◌,
}
use at91_sam9x25_drivers.Kernel.{Errno, Ret, val, err, is_nonzero, u32}
use at91_sam9x25_drivers.Flash.Board.{Board}
use at91_sam9x25_drivers.Flash.State.{Flash, Out, next, returned, fault, hang, call}
use at91_sam9x25_drivers.Flash.Blocks.{scan_for_bad_eraseblocks}

-- The pointer `bbt`: NULL, to memory that is held, or to memory that has been freed.
pub data Table : Type 0 where
  null live freed : Table

-- The registrations of `at91flash_dev` and the references to the MTD device that are held.
pub record Module (W : Type 0) : Type 0 where
  pub flash : Flash W
  pub registered : ℕ
  pub mtd_refs : ℕ
  pub table : Table

-- Releasing what is not held is a fault, `none`.
module _ {W : Type 0} where
  abbrev pub misc_deregister : Module W → Option (Module W)
  misc_deregister m = elim m.registered [ zero ↦ none | suc n ↦ some (record m { registered = n }) ]

  abbrev pub put_mtd_device : Module W → Option (Module W)
  put_mtd_device m = elim m.mtd_refs [ zero ↦ none | suc n ↦ some (record m { mtd_refs = n }) ]

  abbrev pub kfree_bbt : Module W → Option (Module W)
  kfree_bbt m = elim m.table [
    | null ↦ some m
    | live ↦ some (record m { table = freed })
    | freed ↦ none
  ]

-- the label `out`: whatever went wrong, the result is 0
unfoldable pub out : {W : Type 0} → Module W → Option (Ret × Module W)
out m = do m1 ← kfree_bbt m; m2 ← put_mtd_device m1; m3 ← misc_deregister m2; some (val 0, m3)

module _ (p : Board) where
  -- The table is allocated if the scan got past its `kzalloc`.
  unfoldable pub scanned : Module p.World → Out p.World Ret → Option (Ret × Module p.World)
  unfolding out
  scanned m (next r s) =
      if is_nonzero r
      then out (record m { flash = s })
      else some (val 0, record m { flash = s; table = live })
  scanned m (returned r s) = some (r, record m { flash = s })
  scanned m fault = none
  scanned m hang = none

  -- `reg` is the result of `misc_register`, `get` the error that `get_mtd_device` may give.
  unfoldable pub init :
      (reg : Ret) (get : Option Errno) → Module p.World → Option (Ret × Module p.World)
  unfolding scanned
  init reg get m =
      if is_nonzero reg
      then some (reg, m)
      else (let m1 = record m { registered = m.registered + 1 } in
          elim get [
            | some e ↦ do m2 ← misc_deregister m1; some (err e, m2)
            | none ↦
                let m2 = record m1 { mtd_refs = m.mtd_refs + 1 } in
                let ready = record m.flash { ebcnt = u32 (p.size / p.erasesize) } in
                if p.is_nand then scanned m2 (call (scan_for_bad_eraseblocks p) ready) else out m2
          ])

  unfoldable pub exit : Module p.World → Option (Module p.World)
  exit m = do m1 ← misc_deregister m; m2 ← put_mtd_device m1; kfree_bbt m2
