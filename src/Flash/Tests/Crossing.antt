-- ===== src/Flash/Tests/Crossing.antt =====
-- Reads and writes on the simulated board with a bad block between the good ones.
use at91_sam9x25_drivers.Prelude.{ℕ, [], ◌∷◌, ◌+◌, ◌≤◌, true, ◌≡◌, refl, arith, region}
use at91_sam9x25_drivers.Kernel.{val}
use at91_sam9x25_drivers.Flash.State.{Flash, next, returned}
use at91_sam9x25_drivers.Flash.Write.{write}
use at91_sam9x25_drivers.Flash.Write.Split.{write-crosses}
use at91_sam9x25_drivers.Flash.Write.Straddle.{Straddles}
use at91_sam9x25_drivers.Flash.Write.Refines.{TapeWrite, write-refines}
use at91_sam9x25_drivers.Flash.RoundTrip.{write-then_read}
use at91_sam9x25_drivers.Flash.Read.{read}
use at91_sam9x25_drivers.Flash.Read.Stream.{Stream, read-streams}
use at91_sam9x25_drivers.Flash.Tape.{remaining}
use at91_sam9x25_drivers.Flash.Seek.{lseek, seek_set}
use at91_sam9x25_drivers.Flash.Chip.{patched}
use at91_sam9x25_drivers.Prelude.Int.{pos}
use at91_sam9x25_drivers.Flash.Tests.{
  Sim, middle_bad, driver, board-IsSized, board-IsHealthy, driver-IsReady,
}

straddles : Straddles middle_bad (board-IsSized true 4) (board-IsHealthy true 4) (driver 2) 500 4 2
straddles = record {
  ready = driver-IsReady true 4 2 (omega arith);
  later = λ e. absurd (omega (arith, e));
  good = refl;
  finds = refl;
  crosses = omega arith;
  at_most_block = omega arith;
  inside = omega arith;
  readable = tt;
  readable_rest = tt;
}

write-crosses_example :
    (s' : Flash Sim) × (write middle_bad 500 4 (driver 2) ≡ returned (val 4) s')
    × (s'.pos ≡ 10)
    × ((x : ℕ)
        → s'.world.cell x
          ≡ patched
              (λ y. patched (λ a. a) 2 (region (λ a. 1000 + a) 500 2) y)
              8
              (region (λ a. 1000 + a) 502 2)
              x)
write-crosses_example =
    write-crosses middle_bad (board-IsSized true 4) (board-IsHealthy true 4) 500 4 2 (driver 2)
      straddles _ refl

-- Blocks 0 and 2 of the board, behind position 2.
write-refines_example :
    (n : ℕ) × (s' : Flash Sim) × (4 ≤ n)
    × (n ≤ 4)
    × (write middle_bad 500 4 (driver 2) ≡ returned (val n) s')
    × TapeWrite middle_bad (board-IsSized true 4) (board-IsHealthy true 4) 500 4 (driver 2) s'
write-refines_example =
    write-refines middle_bad (board-IsSized true 4) (board-IsHealthy true 4) 500 4 (driver 2) _
      (driver-IsReady true 4 2 (omega arith)) (λ e. absurd (omega (arith, e))) (omega arith)
      (omega arith) (omega arith) (λ a n _ _. tt) refl

write-then_read_example :
    (n : ℕ) × (m : ℕ) × (s1 : Flash Sim) × (s2 : Flash Sim) × (s3 : Flash Sim) × (write middle_bad
        500 4
        (driver 2)
      ≡ returned (val n) s1)
    × (lseek middle_bad (pos 2) seek_set s1 ≡ next (val 2) s2)
    × (read middle_bad 700 4 s2 ≡ returned (val m) s3)
    × (region s3.world.user 700 4 ≡ region (λ a. 1000 + a) 500 4)
write-then_read_example =
    write-then_read middle_bad (board-IsSized true 4) (board-IsHealthy true 4) 4 (driver 2)
      (driver-IsReady true 4 2 (omega arith)) (omega arith) (omega arith) 500 700
      (λ e. absurd (omega (arith, e))) (omega arith) (omega arith) (λ a n _ _. tt) (λ a n _ _. tt)
      (λ w n. (_, refl))

-- Two reads, with the bad block between them.
read-streams_example :
    (s' : Flash Sim) × Stream middle_bad
      (board-IsSized true 4)
      (board-IsHealthy true 4)
      500
      (3 ∷ 4 ∷ [])
      (1 ∷ 2 ∷ 3 ∷ 8 ∷ 9 ∷ 10 ∷ 11 ∷ [])
      (driver 1)
      s'
    × (remaining middle_bad (board-IsHealthy true 4) s' ≡ [])
read-streams_example =
    read-streams middle_bad (board-IsSized true 4) (board-IsHealthy true 4) 500 (λ w n. (_, refl))
      (3 ∷ 4 ∷ []) (driver 1) (driver-IsReady true 4 1 (omega arith))
      (omega arith, omega arith, omega arith, (omega arith, omega arith, omega arith, tt))
      (λ count le a n _ _. tt) (omega arith)
