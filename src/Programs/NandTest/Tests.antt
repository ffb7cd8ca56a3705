-- ===== src/Programs/NandTest/Tests.antt =====
-- NAND_FLASH_test of hwtest/hwtest.c on a simulated chip of two blocks of 128 bytes.
use at91_sam9x25_drivers.Prelude.{ℕ, ◌<◌, ◌≡◌, refl, true, false, some, replicate, arith}
use at91_sam9x25_drivers.Kernel.Plain.{plain}
use at91_sam9x25_drivers.Flash.Board.{Board}
use at91_sam9x25_drivers.Flash.Chip.{patched}
use at91_sam9x25_drivers.Flash.State.{Flash, next}
use at91_sam9x25_drivers.Flash.Tests.{
  Sim, simulated, simulated-IsSized, simulated-IsHealthy, fresh_world,
}
use at91_sam9x25_drivers.Flash.Search.Ready.{IsReady}
use at91_sam9x25_drivers.Programs.NandTest.{len, request, nand_flash_test}
use at91_sam9x25_drivers.Programs.Memory.{Memory}
use at91_sam9x25_drivers.Programs.Memory.Serves.{Serves}
use at91_sam9x25_drivers.Programs.NandTest.ReadsBack.{nand_flash_test-reads_back}

abbrev chip : Board
chip = simulated 256 128 true 1000

abbrev program : Memory chip
program = record {
  peek = λ w. w.user;
  memset = λ w a v n. record w { user = patched w.user a (replicate n v) };
  fetch = λ w. some (request 500);
  put_back = λ w karg. (false, w);
}

program-Serves : Serves chip (simulated-IsHealthy 256 128 true 1000) program (request 500)
program-Serves = record {
  peeks = λ w x. refl;
  mapped = λ a n _ _. tt;
  fetched = λ w. refl;
  replies = λ w. refl;
  replies_user = λ w i lt. refl;
  replies_cell = λ w x. refl;
  replies_isbad = λ w c. refl;
  sets_user = λ w v x. refl;
  sets_cell = λ w v x. refl;
  sets_isbad = λ w v c. refl;
  allocates = λ w n. (replicate n 7, refl);
}

abbrev loaded : Flash Sim
loaded = record { world = fresh_world; bbt = replicate 2 0; ebcnt = 2; pos = 0; held = 0 }

loaded-IsReady : IsReady chip loaded
loaded-IsReady = record {
  block_pos = omega arith;
  fits = omega arith;
  whole = refl;
  few = omega arith;
  table = refl;
  at = omega arith;
  known = refl;
}

nand_flash_test-reads_back_example :
    (s' : Flash Sim) × (nand_flash_test plain chip program (some 500) true loaded
      ≡ next (some (replicate len 0, replicate len 0)) s')
    × ((x : ℕ) → x < len → s'.world.cell x ≡ 0)
nand_flash_test-reads_back_example =
    nand_flash_test-reads_back plain chip (simulated-IsSized 256 128 true 1000)
      (simulated-IsHealthy 256 128 true 1000) program 500 program-Serves loaded loaded-IsReady refl
      (omega arith) (omega arith)
