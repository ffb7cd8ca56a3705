-- ===== src/Programs/FlashDemo.antt =====
-- The main function of flash/flash_demo.c, on the flash driver's device.
pub mod ReadsBack
mod Tests
use at91_sam9x25_drivers.Prelude.{ℕ, Bool, true, false, Option, none, some, List, region}
use at91_sam9x25_drivers.Prelude.Int.{ℤ}
use at91_sam9x25_drivers.Kernel.{Ioctls}
use at91_sam9x25_drivers.Flash.Board.{Board}
use at91_sam9x25_drivers.Flash.State.{Flash, next, Action, ◌>>=◌, ◌>>◌, pure, call}
use at91_sam9x25_drivers.Flash.Ioctl.{ioctl, at91flash_read, at91flash_write}
use at91_sam9x25_drivers.Programs.Memory.{Memory, set_data, shown_data}
use at91_sam9x25_drivers.Programs.FlashArgs.{arguments}

module _ (k : Ioctls) (p : Board) (m : Memory p) where
  -- From the offset, the length and the byte that the arguments give, if they pass, and the results
  -- of `malloc` and `open`: what is shown before and after, `none` where it is given up. The argument
  -- of the two commands lies in the program's memory; their results are not looked at.
  unfoldable pub demo :
      (args : Option (ℤ × ℕ × ℕ)) (malloc : Option ℕ) (opened : Bool)
      → Action p.World (Option (List ℕ × List ℕ))
  demo none malloc opened = pure none
  demo (some args) none opened = pure none
  demo (some (offset, len, value)) (some flashdata) false = do
    set_data p m flashdata value len
    shown_data p m flashdata len
    pure none
  demo (some (offset, len, value)) (some flashdata) true = do
    set_data p m flashdata value len
    before ← shown_data p m flashdata len
    call (ioctl k p m.fetch m.put_back (at91flash_write k))
    set_data p m flashdata 0xff len
    call (ioctl k p m.fetch m.put_back (at91flash_read k))
    after ← shown_data p m flashdata len
    pure (some (before, after))

  -- The whole of `main`, from `argc` and the results of `atoi`.
  abbrev pub flash_demo :
      (argc : ℕ) (offset len value : ℤ) (malloc : Option ℕ) (opened : Bool)
      → Action p.World (Option (List ℕ × List ℕ))
  flash_demo argc offset len value malloc opened =
      demo (arguments argc offset len value) malloc opened
