-- ===== src/Flash/Tests/Runs.antt =====
-- The theorems about flash/at91flash.c on the simulated board.
use at91_sam9x25_drivers.Prelude.{
  ℕ, ◌+◌, ◌≤◌, ◌<◌, ◌≡◌, refl, true, false, none, some, [], ◌∷◌, ◌/◌, ◌%◌, arith, get_or,
  if◌then◌else◌,
}
use at91_sam9x25_drivers.Prelude.Int.{pos}
use at91_sam9x25_drivers.Kernel.Plain.{plain}
use at91_sam9x25_drivers.Kernel.{val, err, efault}
use at91_sam9x25_drivers.Flash.State.{Flash, returned, fault, leave}
use at91_sam9x25_drivers.Flash.Ensures.{Returns}
use at91_sam9x25_drivers.Flash.Search.{find_good, round, read_first_block}
use at91_sam9x25_drivers.Flash.Search.Ready.{IsReady, is_bad}
use at91_sam9x25_drivers.Flash.Search.Found.{find_good_lem, Found}
use at91_sam9x25_drivers.Flash.Read.{read}
use at91_sam9x25_drivers.Flash.Read.Safe.{IsDone, read-IsDone}
use at91_sam9x25_drivers.Flash.Read.Contents.{Asks, SameChip}
use at91_sam9x25_drivers.Flash.Read.Split.{read-crosses}
use at91_sam9x25_drivers.Flash.Read.Refines.{TapeRead, read-refines}
use at91_sam9x25_drivers.Flash.Write.{write}
use at91_sam9x25_drivers.Flash.Write.Safe.{write-IsDone}
use at91_sam9x25_drivers.Flash.Write.Overrun.{write-overruns}
use at91_sam9x25_drivers.Flash.Write.InBlock.{InBlock}
use at91_sam9x25_drivers.Flash.Write.First.{write-clobbers_first}
use at91_sam9x25_drivers.Flash.Ioctl.{FlashData, ioctl, at91flash_read}
use at91_sam9x25_drivers.Flash.Ioctl.Laws.{reading, ioctl-transfers}
use at91_sam9x25_drivers.Flash.Init.{Module, init, exit, freed}
use at91_sam9x25_drivers.Flash.Init.Laws.{unloaded, init-exit, init-fails_as_0}
use at91_sam9x25_drivers.Flash.Tests.{
  Sim, board, two_good, all_good, middle_bad, fresh_world, driver, board-IsSized, board-IsHealthy,
  driver-IsReady,
}

read-IsDone_example :
    Returns (IsDone two_good (board-IsSized true 0) 0) (read two_good 500 7 (driver 2))
read-IsDone_example =
    read-IsDone two_good (board-IsSized true 0) 500 7 (driver 2)
      (driver-IsReady true 0 2 (omega arith)) (omega arith)

write-IsDone_example :
    Returns (IsDone two_good (board-IsSized true 0) 0) (write two_good 500 4 (driver 6))
write-IsDone_example =
    write-IsDone two_good (board-IsSized true 0) 500 4 (driver 6)
      (driver-IsReady true 0 6 (omega arith)) (omega arith) (λ h. absurd (omega arith))

write-overruns_example : write all_good 500 13 (driver 0) ≡ fault
write-overruns_example =
    write-overruns all_good (board-IsSized true 100) 500 13 (driver 0)
      (driver-IsReady true 100 0 (omega arith)) refl refl refl (omega arith) (omega arith)
      (omega arith)

asks :
    (at count : ℕ)
    → 0 < count
    → at + count ≤ 12
    → is_bad all_good fresh_world (at / 4) ≡ false
    → Asks all_good (board-IsHealthy true 100) (driver at) 500 count
asks at count some_bytes inside good = record {
  ready = driver-IsReady true 100 at (omega arith);
  good = good;
  some_bytes = some_bytes;
  moderate = omega arith;
  inside = inside;
}

asks_past_bad : Asks middle_bad (board-IsHealthy true 4) (driver 1) 500 6
asks_past_bad = record {
  ready = driver-IsReady true 4 1 (omega arith);
  good = refl;
  some_bytes = omega arith;
  moderate = omega arith;
  inside = omega arith;
}

read-crosses_example :
    (s' : Flash Sim) × (read middle_bad 500 6 (driver 1) ≡ returned (val 3) s')
    × (s'.pos ≡ 11)
    × ((i : ℕ) → i < 3 → s'.world.user (500 + i) ≡ 1 + i)
    × ((i : ℕ) → i < 3 → s'.world.user (503 + i) ≡ 8 + i)
    × SameChip middle_bad (board-IsHealthy true 4) fresh_world s'.world
    × (s'.ebcnt ≡ 3)
read-crosses_example =
    read-crosses middle_bad (board-IsHealthy true 4) 500 6 (driver 1) asks_past_bad 2 (omega arith)
      tt tt refl (omega arith) refl

read-refines_example :
    (n : ℕ) × (s' : Flash Sim) × (0 < n)
    × (n ≤ 4)
    × (read middle_bad 500 4 (driver 1) ≡ returned (val n) s')
    × TapeRead middle_bad (board-IsHealthy true 4) 500 4 (driver 1) s'
read-refines_example =
    read-refines middle_bad (board-IsHealthy true 4) 500 4 (driver 1)
      (driver-IsReady true 4 1 (omega arith)) (omega arith) (omega arith) (omega arith)
      (omega arith) (λ a n _ _. tt) refl

in_block :
    (at count : ℕ)
    → at < 12
    → 0 < count
    → at % 4 + count ≤ 4
    → is_bad all_good fresh_world (at / 4) ≡ false
    → InBlock all_good (board-IsSized true 100) (board-IsHealthy true 100) (driver at) 500 count
in_block at count lt some_bytes within good = record {
  ready = driver-IsReady true 100 at (omega arith);
  on_device = lt;
  good = good;
  some_bytes = some_bytes;
  within = within;
  readable = tt;
}

write-clobbers_first_example :
    (s' : Flash Sim) × (write all_good 500 1 (driver 0) ≡ returned (val 4) s')
    × ((x : ℕ) → x < 1 → s'.world.cell x ≡ 1000 + (500 + x))
    × ((x : ℕ) → 1 ≤ x → x < 4 → s'.world.cell x ≡ get_or (7 ∷ 7 ∷ 7 ∷ 7 ∷ []) x 0)
    × ((x : ℕ) → 4 ≤ x → s'.world.cell x ≡ x)
write-clobbers_first_example =
    write-clobbers_first all_good (board-IsSized true 100) (board-IsHealthy true 100) 500 1
      (driver 0) (in_block 0 1 (omega arith) (omega arith) (omega arith) refl) _ refl refl

find_good_lem_example :
    Found two_good
      (leave (err efault))
      (leave (err efault))
      (driver 2)
      3
      0
      (some 1)
      (find_good two_good 4 (leave (err efault)) (leave (err efault)) (driver 2))
find_good_lem_example =
    find_good_lem two_good 3 4 0 (leave (err efault)) (leave (err efault)) (driver 2)
      (driver-IsReady true 0 2 (omega arith)) refl refl (omega arith)

init-exit_example :
    (m1 m2 : Module Sim) × (init two_good (val 0) none (unloaded two_good (driver 0))
      ≡ some (val 0, m1))
    × IsReady two_good m1.flash
    × ((b : ℕ) → b < 3 → get_or m1.flash.bbt b 0 ≡ (if is_bad two_good fresh_world b then 1 else 0))
    × (exit two_good m1 ≡ some m2)
    × (m2.registered ≡ 0)
    × (m2.mtd_refs ≡ 0)
    × (m2.table ≡ freed)
init-exit_example =
    init-exit two_good (driver 0) refl refl (omega arith) (omega arith) refl (omega arith) refl refl

init-fails_as_0_example :
    (init (board false 0) (val 0) none (unloaded (board false 0) (driver 0))
      ≡ some (val 0, unloaded (board false 0) (driver 0)))
    × (exit (board false 0) (unloaded (board false 0) (driver 0)) ≡ none)
init-fails_as_0_example = init-fails_as_0 (board false 0) (driver 0) refl

abbrev request : FlashData
request = record { offset = pos 13; len = 2; pbuf = 500 }

-- A seek past the end, and an error of the read that is not reported either.
ioctl-transfers_example :
    ioctl plain two_good (λ _. some request) (λ w _. (false, w)) (at91flash_read plain) (driver 12)
    ≡ returned (val 0) (driver 12)
unfolding read read_first_block find_good round
ioctl-transfers_example =
    ioctl-transfers plain two_good (λ _. some request) (λ w _. (false, w)) reading request
      (driver 12) refl refl refl
