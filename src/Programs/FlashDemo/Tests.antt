-- ===== src/Programs/FlashDemo/Tests.antt =====
-- flash/flash_demo.c on a simulated chip of three blocks of 4 bytes, of which the second is bad.
use at91_sam9x25_drivers.Prelude.{◌≡◌, refl, true, false, some, replicate, arith}
use at91_sam9x25_drivers.Prelude.Int.{pos}
use at91_sam9x25_drivers.Kernel.Plain.{plain}
use at91_sam9x25_drivers.Flash.Chip.{patched}
use at91_sam9x25_drivers.Flash.State.{Flash, next}
use at91_sam9x25_drivers.Flash.Ioctl.{FlashData}
use at91_sam9x25_drivers.Flash.Tests.{
  Sim, middle_bad, driver, board-IsSized, board-IsHealthy, driver-IsReady,
}
use at91_sam9x25_drivers.Programs.Memory.{Memory}
use at91_sam9x25_drivers.Programs.Memory.Serves.{Serves}
use at91_sam9x25_drivers.Programs.FlashDemo.{flash_demo}
use at91_sam9x25_drivers.Programs.FlashDemo.ReadsBack.{flash_demo-reads_back}
use at91_sam9x25_drivers.Programs.FlashArgs.{arguments}

abbrev argument : FlashData
argument = record { offset = pos 2; len = 4; pbuf = 500 }

abbrev program : Memory middle_bad
program = record {
  peek = λ w. w.user;
  memset = λ w a v n. record w { user = patched w.user a (replicate n v) };
  fetch = λ w. some argument;
  put_back = λ w karg. (false, w);
}

program-Serves : Serves middle_bad (board-IsHealthy true 4) program argument
program-Serves = record {
  peeks = λ w x. refl;
  mapped = λ a n _ _. tt;
  fetched = λ w. refl;
  replies = λ w. refl;
  replies_user = λ w i lt. refl;
  replies_cell = λ w x. refl;
  replies_isbad = λ w c. refl;
  sets_user = λ w v x. refl;
  sets_cell = λ w v x. refl;
  sets_isbad = λ w v c. refl;
  allocates = λ w n. (_, refl);
}

flash_demo-reads_back_example :
    (s' : Flash Sim) × (flash_demo plain middle_bad program 4
        (pos 2)
        (pos 4)
        (pos 9)
        (some 500)
        true
        (driver 0)
      ≡ next (some (replicate 4 9, replicate 4 9)) s')
unfolding arguments
flash_demo-reads_back_example =
    flash_demo-reads_back plain middle_bad (board-IsSized true 4) (board-IsHealthy true 4) program 2
      4 500 program-Serves (driver 0) (driver-IsReady true 4 0 (omega arith)) (omega arith) 4
      (pos 4) (pos 9) 9 refl (λ e. absurd (omega (arith, e))) (omega arith) (omega arith)
