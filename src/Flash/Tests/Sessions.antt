-- ===== src/Flash/Tests/Sessions.antt =====
-- A session on the simulated board: a seek to the end and a read there, which fails.
use at91_sam9x25_drivers.Prelude.{◌≡◌, refl, true, false, some, arith}
use at91_sam9x25_drivers.Prelude.Int.{pos}
use at91_sam9x25_drivers.Kernel.Plain.{plain}
use at91_sam9x25_drivers.Kernel.{Ret, val, err, efault}
use at91_sam9x25_drivers.Flash.State.{Flash, next}
use at91_sam9x25_drivers.Flash.Search.{find_good, round, read_first_block}
use at91_sam9x25_drivers.Flash.Search.Ready.{IsReady}
use at91_sam9x25_drivers.Flash.Seek.{lseek, seek_set}
use at91_sam9x25_drivers.Flash.Read
use at91_sam9x25_drivers.Flash.Ioctl.{FlashData}
use at91_sam9x25_drivers.Flash.Session.{
  llseek, read, write, handle, calls, changes, Reach, here, after,
}
use at91_sam9x25_drivers.Flash.Session.Lasting.{Reach-lasts, Reach-returns}
use at91_sam9x25_drivers.Flash.Tests.{Sim, two_good, driver, board-IsSized, driver-IsReady}

abbrev argument : Sim → FlashData
argument _ = record { offset = pos 13; len = 2; pbuf = 500 }

abbrev Reached : Flash Sim → Type 0
Reached = Reach plain two_good (λ w. some (argument w)) (λ w _. (false, w)) (driver 5)

reached : Reached (driver 12)
unfolding handle lseek Read.read read_first_block find_good round
reached =
    after
      (after (after here (changes (driver 5).world refl))
        (calls (llseek (pos 12) seek_set) (val 12) tt refl))
      (calls (read 500 3) (err efault) (omega arith) refl)

Reach-lasts_example : IsReady two_good (driver 12) × ((driver 12).held ≡ 0)
Reach-lasts_example =
    Reach-lasts plain two_good (board-IsSized true 0) (λ w. some (argument w)) (λ w _. (false, w))
      (driver-IsReady true 0 5 (omega arith)) refl reached

Reach-returns_example :
    (r : Ret) × (u : Flash Sim) × (handle plain two_good
        (λ w. some (argument w))
        (λ w _. (false, w))
        (write 500 2)
        (driver 12)
      ≡ next r u)
Reach-returns_example =
    Reach-returns plain two_good (board-IsSized true 0) (λ w. some (argument w)) (λ w _. (false, w))
      (write 500 2) (driver-IsReady true 0 5 (omega arith)) refl reached
      (omega arith, λ _. omega arith)
