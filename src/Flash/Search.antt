-- ===== src/Flash/Search.antt =====
-- The four `while(1)` loops of flash/at91flash.c that skip bad blocks. They differ in what they
-- return when there is no good block left.
pub mod Ready
pub mod Found
pub mod Located
pub mod Lands
use at91_sam9x25_drivers.Prelude.{
  ℕ, zero, suc, ◌+◌, ◌*◌, ◌/◌, ◌%◌, Bool, true, false, leb, if◌then◌else◌,
}
use at91_sam9x25_drivers.Kernel.{Ret, val, err, efault, u32, sge}
use at91_sam9x25_drivers.Flash.Board.{Board}
use at91_sam9x25_drivers.Flash.State.{Flash, Out, next, hang, Action, and_then, ◌>>◌, leave, kfree}
use at91_sam9x25_drivers.Flash.Blocks.{check_block}

module _ (p : Board) where
  -- One round, from the block of `*ppos`: the first good block, and the offset of `*ppos` in it, or
  -- another round. `overrun` is the exit at `ebnum >= ebcnt`, `past` that at `*ppos >= mtd->size`.
  unfoldable pub round : (overrun past again : Action p.World (ℕ × ℕ)) → Action p.World (ℕ × ℕ)
  round overrun past again s =
      let ebnum = u32 (s.pos / p.erasesize) in
      elim (sge ebnum s.ebcnt) [
        | true ↦ overrun s
        | false ↦ and_then (check_block p ebnum s) (λ bad s1. elim bad [
          | false ↦ next (ebnum, s1.pos % p.erasesize) s1
          | true ↦
              let s2 = record s1 { pos = u32 ((ebnum + 1) * p.erasesize) } in
              elim (leb p.size s2.pos) [ true ↦ past s2 | false ↦ again s2 ]
        ])
      ]

  unfoldable pub find_good : ℕ → (overrun past : Action p.World (ℕ × ℕ)) → Action p.World (ℕ × ℕ)
  find_good zero overrun past s = hang
  find_good (suc fuel) overrun past s = round overrun past (find_good fuel overrun past) s

  -- One round for each block, and one to see the end.
  abbrev pub with_fuel : (ℕ → Action p.World (ℕ × ℕ)) → Action p.World (ℕ × ℕ)
  with_fuel loop s = loop (s.ebcnt + 1) s

  -- the first loop of `at91flash_read`
  unfoldable pub read_first_block : Action p.World (ℕ × ℕ)
  read_first_block = with_fuel λ n. find_good n (leave (err efault)) (leave (err efault))

  -- its second loop, after `readlen` bytes
  unfoldable pub read_second_block : ℕ → Action p.World (ℕ × ℕ)
  read_second_block readlen =
      with_fuel λ n. find_good n (kfree >> leave (val readlen)) (kfree >> leave (err efault))

  -- the first loop of `at91flash_write`
  unfoldable pub write_first_block : Action p.World (ℕ × ℕ)
  write_first_block = with_fuel λ n. find_good n (leave (err efault)) (leave (err efault))

  -- its second loop
  unfoldable pub write_second_block : Action p.World (ℕ × ℕ)
  write_second_block =
      with_fuel λ n. find_good n (kfree >> leave (err efault)) (kfree >> leave (err efault))
