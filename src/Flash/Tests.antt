-- ===== src/Flash/Tests.antt =====
-- A small simulated board, on which the theorems about flash/at91flash.c are run.
mod Runs
mod Crossing
mod Sessions
use at91_sam9x25_drivers.Prelude.{
  ℕ, ◌+◌, ◌-◌, ◌*◌, ◌≤◌, ◌<◌, ◌≡◌, refl, ap, Bool, true, false, some, List, length, region,
  replicate, arith, min, length-region, length-replicate, ltb, leb, ◌==◌, if◌then◌else◌,
}
use at91_sam9x25_drivers.Kernel.{Ret, val}
use at91_sam9x25_drivers.Flash.Board.{Board, IsSized}
use at91_sam9x25_drivers.Flash.State.{Flash}
use at91_sam9x25_drivers.Flash.Chip.{IsHealthy, patched}
use at91_sam9x25_drivers.Flash.Search.Ready.{IsReady}

pub record Sim : Type 0 where
  pub cell : ℕ → ℕ
  pub user : ℕ → ℕ

-- A chip of which the block at `bad` is a bad one; fresh memory holds sevens.
abbrev pub simulated : (size erasesize : ℕ) (is_nand : Bool) (bad : ℕ) → Board
simulated size erasesize is_nand bad = record {
  World = Sim;
  size = size;
  erasesize = erasesize;
  writesize = 2;
  is_nand = is_nand;
  has_isbad = true;
  block_isbad = λ _ a. if a == bad then val 1 else val 0;
  mtd_read = λ w a n. (val 0, region w.cell a (min n (size - a)));
  mtd_write = λ w a b. (val 0, length b, record w { cell = patched w.cell a b });
  mtd_erase = λ w a n. (val 0, false, record w { cell = patched w.cell a (replicate n 255) });
  kmalloc = λ _ n. some (replicate n 7);
  copy_to_user = λ w a b. (false, record w { user = patched w.user a b });
  copy_from_user = λ w a n. some (region w.user a n);
}

some_inj : {A : Type 0} {a b : A} → some a ≡ some b → a ≡ b
some_inj e = cc

pub simulated-IsSized :
    (size erasesize : ℕ) (is_nand : Bool) (bad : ℕ) → IsSized (simulated size erasesize is_nand bad)
simulated-IsSized size erasesize is_nand bad = record {
  kmalloc_size = λ w n e. rw (← some_inj e) (length-replicate n 7);
  read_size = λ w a n. omega (arith, length-region w.cell a (min n (size - a)));
  read_inside = λ w a n le. omega (arith, length-region w.cell a (min n (size - a)));
  write_size = λ w a b. omega arith;
  copy_size = λ w a n e. rw (← some_inj e) (length-region w.user a n);
}

abbrev pub simulated-IsHealthy :
    (size erasesize : ℕ) (is_nand : Bool) (bad : ℕ)
    → IsHealthy (simulated size erasesize is_nand bad)
simulated-IsHealthy size erasesize is_nand bad = record {
  cell = λ w. w.cell;
  user = λ w. w.user;
  mapped = λ _ _. Unit {0};
  read_works =
      λ w a n le. ap (λ k. (val 0, region w.cell a k)) {x = min n (size - a)} {y = n} (omega arith);
  erase_works = λ w a le. (refl, refl);
  erase_cells = λ w a x le. refl;
  erase_user = λ w a x. refl;
  write_count = λ w a b le. refl;
  write_cells = λ w a b x le ones. refl;
  write_user = λ w a x b. refl;
  copy_in = λ w a n ok. refl;
  copy_out = λ w a b ok. refl;
  copy_out_user = λ w a b x ok. refl;
  copy_out_cell = λ w a b x. refl;
  erase_isbad = λ w a c. refl;
  write_isbad = λ w a c b. refl;
  copy_out_isbad = λ w a c b. refl;
}

-- Three blocks of four bytes.
abbrev pub board : (is_nand : Bool) (bad : ℕ) → Board
board = simulated 12 4

pub board-IsSized : (is_nand : Bool) (bad : ℕ) → IsSized (board is_nand bad)
board-IsSized = simulated-IsSized 12 4

abbrev pub board-IsHealthy : (is_nand : Bool) (bad : ℕ) → IsHealthy (board is_nand bad)
board-IsHealthy = simulated-IsHealthy 12 4

-- Block 0 bad, or block 1, or no block.
abbrev pub two_good : Board
two_good = board true 0

abbrev pub middle_bad : Board
middle_bad = board true 4

abbrev pub all_good : Board
all_good = board true 100

-- The chip holds its addresses, the user's memory the same from 1000 on.
abbrev pub fresh_world : Sim
fresh_world = record { cell = λ a. a; user = λ a. 1000 + a }

abbrev pub driver : ℕ → Flash Sim
driver pos = record { world = fresh_world; bbt = replicate 3 0; ebcnt = 3; pos = pos; held = 0 }

pub driver-IsReady :
    (is_nand : Bool) (bad pos : ℕ) → pos ≤ 16 → IsReady (board is_nand bad) (driver pos)
driver-IsReady is_nand bad pos le = record {
  block_pos = omega arith;
  fits = omega arith;
  whole = refl;
  few = omega arith;
  table = refl;
  at = le;
  known = refl;
}
