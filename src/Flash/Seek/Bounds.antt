-- ===== src/Flash/Seek/Bounds.antt =====
-- What `at91flash_lseek` does to the position.
use at91_sam9x25_drivers.Prelude.{ℕ, ◌≤◌, ◌≡◌, refl, ◌⊎◌, arith, le→leb}
use at91_sam9x25_drivers.Prelude.Int.{ℤ, pos}
use at91_sam9x25_drivers.Kernel.{val, err, einval}
use at91_sam9x25_drivers.Flash.Board.{Board}
use at91_sam9x25_drivers.Flash.State.{Flash, next}
use at91_sam9x25_drivers.Flash.Ensures.{Ensures}
use at91_sam9x25_drivers.Flash.Seek.{Whence, seek_set, lseek}

module _ (p : Board) where
  -- `at91flash_lseek` either moves the position onto the device and returns it, or returns -EINVAL
  -- and changes nothing. It never returns to the kernel by a fault.
  pub lseek_bounds :
      (offset : ℤ) (orig : Whence) (s : Flash p.World)
      → Ensures
          (λ r s'.
            ((r ≡ val s'.pos) × (s'.pos ≤ p.size) × (s' ≡ record s { pos = s'.pos }))
            ⊎ ((r ≡ err einval) × (s' ≡ s)))
          (λ _ _. ⊥)
          (lseek p offset orig s)
  unfolding lseek
  lseek_bounds (pos n) Whence.seek_set s = ground arith
  lseek_bounds offset orig s = ground arith

  pub lseek_set :
      (n : ℕ) (s : Flash p.World)
      → n ≤ p.size
      → lseek p (pos n) seek_set s ≡ next (val n) (record s { pos = n })
  unfolding lseek
  lseek_set n s le = rw (le→leb n p.size le) refl
