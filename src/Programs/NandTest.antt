-- ===== src/Programs/NandTest.antt =====
-- NAND_FLASH_test of hwtest/hwtest.c, on the flash driver's device.
pub mod ReadsBack
mod Tests
use at91_sam9x25_drivers.Prelude.{ℕ, Bool, true, false, Option, none, some, List, replicate, region}
use at91_sam9x25_drivers.Prelude.Int.{pos}
use at91_sam9x25_drivers.Kernel.{Ret, Ioctls}
use at91_sam9x25_drivers.Flash.Board.{Board}
use at91_sam9x25_drivers.Flash.State.{Flash, next, Action, ◌>>=◌, ◌>>◌, pure, gets, call}
use at91_sam9x25_drivers.Programs.Memory.{Memory, set_data, shown_data}
use at91_sam9x25_drivers.Flash.Ioctl.{FlashData, ioctl, at91flash_read, at91flash_write}

abbrev pub len : ℕ
len = 100

-- `uarg`
abbrev pub request : (flashdata : ℕ) → FlashData
request flashdata = record { offset = pos 0; len = len; pbuf = flashdata }

module _ (k : Ioctls) (p : Board) (m : Memory p) where
  -- The part after the device has been opened: what is shown last. Results are not looked at.
  unfoldable pub transfer : (flashdata : ℕ) → Action p.World (List ℕ)
  transfer flashdata = do
    call (ioctl k p m.fetch m.put_back (at91flash_write k))
    set_data p m flashdata 0xff len
    call (ioctl k p m.fetch m.put_back (at91flash_read k))
    shown_data p m flashdata len

  -- `NAND_FLASH_test`, from the results of `malloc`, NULL or an address, and of `open`: what is shown
  -- before and after, `none` where it is given up.
  unfoldable pub nand_flash_test :
      (malloc : Option ℕ) (opened : Bool) → Action p.World (Option (List ℕ × List ℕ))
  nand_flash_test none opened = pure none
  nand_flash_test (some flashdata) false = do
    set_data p m flashdata 0 len
    shown_data p m flashdata len
    pure none
  nand_flash_test (some flashdata) true = do
    set_data p m flashdata 0 len
    before ← shown_data p m flashdata len
    after ← transfer flashdata
    pure (some (before, after))
