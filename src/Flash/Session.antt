-- ===== src/Flash/Session.antt =====
-- Whole sessions on the device of flash/at91flash.c: any calls of its file operations, one after
-- another.
pub mod Lasting
use at91_sam9x25_drivers.Prelude.{ℕ, ◌+◌, ◌^◌, ◌≤◌, ◌<◌, ◌≡◌, Bool, Option, some}
use at91_sam9x25_drivers.Prelude.Int.{ℤ}
use at91_sam9x25_drivers.Kernel.{Ret, Ioctls}
use at91_sam9x25_drivers.Flash.Board.{Board}
use at91_sam9x25_drivers.Flash.State.{Flash, next, Action, call}
use at91_sam9x25_drivers.Flash.Seek.{Whence, lseek}
use at91_sam9x25_drivers.Flash.Read.{read as at91flash_read}
use at91_sam9x25_drivers.Flash.Write.{write as at91flash_write}
use at91_sam9x25_drivers.Flash.Ioctl
use at91_sam9x25_drivers.Flash.Ioctl.{FlashData, ioctl}
use at91_sam9x25_drivers.Flash.Ioctl.Laws.{seeked}

-- The entries of `at91flash_ops` but `open` and `release`, which only return 0.
pub data Call : Type 0 where
  llseek : ℤ → Whence → Call
  read : (buf count : ℕ) → Call
  write : (buf count : ℕ) → Call
  unlocked_ioctl : (cmd : ℕ) → Call

module _ (k : Ioctls) (p : Board) (fetch : p.World → Option FlashData)
    (put_back : p.World → FlashData → Bool × p.World) where
  unfoldable pub handle : Call → Action p.World Ret
  handle (llseek offset orig) = lseek p offset orig
  handle (read buf count) = call (at91flash_read p buf count)
  handle (write buf count) = call (at91flash_write p buf count)
  handle (unlocked_ioctl cmd) = call (ioctl k p fetch put_back cmd)

  -- A write of `count` bytes at `start` that the handler can take: one that passes the end of the
  -- device starts in the last block.
  abbrev pub Fits : (start count : ℕ) → Type 0
  Fits start count = p.size < start + count → p.size ≤ start + p.erasesize

  -- Counts are 32-bit numbers, and writes fit, also those of an ioctl that is taken for AT91FLASH_WRITE,
  -- which are judged by its argument.
  abbrev pub IsAllowed : Call → Flash p.World → Type 0
  IsAllowed (llseek offset orig) s = Unit
  IsAllowed (read buf count) s = count < 2 ^ 32
  IsAllowed (write buf count) s = (count < 2 ^ 32) × Fits s.pos count
  IsAllowed (unlocked_ioctl cmd) s =
      (karg : FlashData)
      → fetch s.world ≡ some karg
      → (karg.len < 2 ^ 32)
        × (k.ioc_nr cmd ≡ k.ioc_nr (Ioctl.at91flash_write k)
            → Fits (seeked p karg.offset s).pos karg.len)

  -- A call that is allowed, and the driver after it; or a change of the world between two calls, of the
  -- user's memory with the argument of an ioctl as much as of the chip.
  pub data Step (s s' : Flash p.World) : Type 0 where
    calls : (c : Call) (r : Ret) → IsAllowed c s → handle c s ≡ next r s' → Step s s'
    changes : (w : p.World) → record s { world = w } ≡ s' → Step s s'

  pub data Reach (s : Flash p.World) : Flash p.World → Type 0 where
    here : Reach s s
    after : {t u : Flash p.World} → Reach s t → Step t u → Reach s u
