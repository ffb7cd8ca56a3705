-- ===== src/Flash/Ioctl.antt =====
-- `at91flash_ioctl` of flash/at91flash.c, over the commands of flash/at91flash.h.
pub mod Laws
use at91_sam9x25_drivers.Prelude.{ℕ, Bool, Option, none, some, ◌==◌, if◌then◌else◌}
use at91_sam9x25_drivers.Prelude.Int.{ℤ}
use at91_sam9x25_drivers.Kernel.{Ret, val, err, efault, Ioctls}
use at91_sam9x25_drivers.Flash.Board.{Board}
use at91_sam9x25_drivers.Flash.State.{Flash, Out, next, returned, Action, ◌>>=◌, ◌>>◌, leave, call}
use at91_sam9x25_drivers.Flash.Seek.{lseek, seek_set}
use at91_sam9x25_drivers.Flash.Read.{read}
use at91_sam9x25_drivers.Flash.Write.{write}

-- `flash_data`; the `int len` is given by its 32-bit pattern, which is what `size_t count` gets.
pub record FlashData : Type 0 where
  pub offset : ℤ
  pub len : ℕ
  pub pbuf : ℕ

abbrev pub sizeof_flash_data : ℕ
sizeof_flash_data = 12

module _ (k : Ioctls) where
  abbrev pub at91flash_read : ℕ
  at91flash_read = k.iowr b't' 1 sizeof_flash_data

  abbrev pub at91flash_write : ℕ
  at91flash_write = k.iowr b't' 2 sizeof_flash_data

-- `fetch` is the `copy_from_user` of the argument, `none` where it fails; `put_back` is the
-- `copy_to_user` of it, with whether that failed.
module _ (k : Ioctls) (p : Board) (fetch : p.World → Option FlashData)
    (put_back : p.World → FlashData → Bool × p.World) where
  unfoldable pub reply : FlashData → Action p.World (Unit {0})
  reply karg s =
      let (failed, w) = put_back s.world karg in
      returned (if failed then err efault else val 0) (record s { world = w })

  -- The commands are told apart by their numbers alone. AT91FLASH_LSEEK and every other number do
  -- nothing.
  unfoldable pub command : ℕ → Option FlashData → Action p.World (Unit {0})
  command nr none s = returned (err efault) s
  command nr (some karg) s =
      if nr == k.ioc_nr (at91flash_read k)
      then (do lseek p karg.offset seek_set; call (read p karg.pbuf karg.len); reply karg) s
      else if nr == k.ioc_nr (at91flash_write k)
      then (do lseek p karg.offset seek_set; call (write p karg.pbuf karg.len); reply karg) s
      else returned (val 0) s

  unfoldable pub ioctl : (cmd : ℕ) → Action p.World (Unit {0})
  ioctl cmd s = command (k.ioc_nr cmd) (fetch s.world) s
