-- ===== src/Flash/Init/Laws.antt =====
-- What loading and unloading the module acquire and release.
use at91_sam9x25_drivers.Prelude.{
  ℕ, ◌+◌, ◌*◌, ◌/◌, ◌^◌, ◌<◌, ◌≡◌, refl, ◌∙◌, ap, false, true, if_true, if_false, none, some, List,
  replicate, get_or, if◌then◌else◌, length-replicate, arith,
}
use at91_sam9x25_drivers.Kernel.{val, u32}
use at91_sam9x25_drivers.Flash.Board.{Board}
use at91_sam9x25_drivers.Flash.State.{Flash, caught}
use at91_sam9x25_drivers.Flash.Blocks.Scan.{scan-marks_bad}
use at91_sam9x25_drivers.Flash.Search.Ready.{IsReady, is_bad}
use at91_sam9x25_drivers.Flash.Init.{Module, null, live, freed, init, exit, scanned, out}

module _ (p : Board) (f : Flash p.World) where
  -- Nothing is held: no registration, no reference to the device, no table.
  abbrev pub unloaded : Module p.World
  unloaded = record { flash = f; registered = 0; mtd_refs = 0; table = null }

  -- The driver as the scan finds it.
  abbrev pub sized : Flash p.World
  sized = record f { ebcnt = u32 (p.size / p.erasesize) }

  sized-IsReady :
      0 < p.erasesize
      → p.size < 2 ^ 32
      → p.size / p.erasesize * p.erasesize ≡ p.size
      → p.size / p.erasesize + 1 < 2 ^ 31
      → p.has_isbad ≡ true
      → f.pos ≡ 0
      → IsReady p (record sized { bbt = replicate (u32 (p.size / p.erasesize)) 0 })
  sized-IsReady block_pos small whole few known at =
      let exact : u32 (p.size / p.erasesize) ≡ p.size / p.erasesize = omega (arith, few) in
      record {
        block_pos = block_pos;
        fits = small;
        whole = ap (λ n. n * p.erasesize) exact ∙ whole;
        few = omega (arith, exact, few);
        table = length-replicate (u32 (p.size / p.erasesize)) 0;
        at = omega (arith, at);
        known = known;
      }

  -- On a NAND device of less than 4 GiB, in fewer than 2 ^ 31 - 1 whole blocks, whose driver tells bad
  -- blocks, and with memory for the table, loading returns 0 with a well-formed driver whose table tells
  -- the bad blocks; unloading it then releases everything, each thing once.
  pub init-exit :
      {table : List ℕ}
      → p.is_nand ≡ true
      → p.kmalloc f.world (u32 (p.size / p.erasesize)) ≡ some table
      → 0 < p.erasesize
      → p.size < 2 ^ 32
      → p.size / p.erasesize * p.erasesize ≡ p.size
      → p.size / p.erasesize + 1 < 2 ^ 31
      → p.has_isbad ≡ true
      → f.pos ≡ 0
      → (m1 m2 : Module p.World) × (init p (val 0) none unloaded ≡ some (val 0, m1))
        × IsReady p m1.flash
        × ((b : ℕ)
            → b < u32 (p.size / p.erasesize)
            → get_or m1.flash.bbt b 0 ≡ (if is_bad p f.world b then 1 else 0))
        × (exit p m1 ≡ some m2)
        × (m2.registered ≡ 0)
        × (m2.mtd_refs ≡ 0)
        × (m2.table ≡ freed)
  unfolding init scanned exit
  init-exit nand mem block_pos small whole few known at =
      let v = sized-IsReady block_pos small whole few known at in
      let (s', runs, ready, told) = scan-marks_bad p sized mem v in
      (
        record { flash = s'; registered = 1; mtd_refs = 1; table = live },
        record { flash = s'; registered = 0; mtd_refs = 0; table = freed },
        if_true _ _ nand
            ∙ ap (λ o. scanned p (record unloaded { registered = 1; mtd_refs = 1 }) (caught o))
                runs,
        ready,
        told,
        refl,
        refl,
        refl,
        refl,
      )

  -- On a device that is not NAND flash loading fails, with everything released, but its result is 0
  -- all the same: the module stays loaded, and unloading it releases what it does not hold.
  pub init-fails_as_0 :
      p.is_nand ≡ false
      → (init p (val 0) none unloaded ≡ some (val 0, unloaded)) × (exit p unloaded ≡ none)
  unfolding init out exit
  init-fails_as_0 other = (if_false _ _ other, refl)
