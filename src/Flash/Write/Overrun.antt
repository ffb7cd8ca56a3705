-- ===== src/Flash/Write/Overrun.antt =====
-- The one request for which `at91flash_write` leaves its buffer.
use at91_sam9x25_drivers.Prelude.{
  ℕ, ◌+◌, ◌/◌, ◌%◌, ◌^◌, ◌<◌, ◌≡◌, refl, true, false, some, List, length, ltb, lt→ltb, ◌==◌, arith,
  not, ◌&&◌, ◌∙◌,
}
use native.Mathlib.Nat.{zero-div}
use at91_sam9x25_drivers.Kernel.{u64}
use at91_sam9x25_drivers.Flash.Board.{Board, IsSized}
use at91_sam9x25_drivers.Flash.State.{Flash, fault}
use at91_sam9x25_drivers.Flash.Write.Effect.{started, write_here}
use at91_sam9x25_drivers.Flash.Search.Ready.{IsReady, is_bad}
use at91_sam9x25_drivers.Flash.Read.{clip}
use at91_sam9x25_drivers.Flash.Write.{fill, write_from, write}

module _ (p : Board) (sized : IsSized p) where
  -- A request at the start of the device for more than the whole of it is not refused for being
  -- longer than a block, since it was cut down to the device's size: with block 0 good and more than
  -- one block on the device, the copy from the user runs past the end of the block's buffer.
  pub write-overruns :
      (buf count : ℕ) (s : Flash p.World) {kbuf : List ℕ}
      → IsReady p s
      → s.pos ≡ 0
      → is_bad p s.world 0 ≡ false
      → p.kmalloc s.world p.erasesize ≡ some kbuf
      → p.size < count
      → count < 2 ^ 32
      → p.erasesize < p.size
      → write p buf count s ≡ fault
  unfolding write_from fill
  write-overruns buf count s {kbuf} v at good mem big small more =
      write_here p buf count s kbuf v (omega arith) (rw here good) guard (rw all (ground arith)) mem
      ∙ copy_overruns
    where
      here : s.pos / p.erasesize ≡ 0
      here = rw at (zero-div p.erasesize)

      all : clip p s.pos count ≡ p.size
      all = ground (arith, v.fits)

      guard : not (ltb p.size (u64 (s.pos + count))) && ltb p.erasesize count ≡ false
      guard = ground (arith, v.fits)

      copy_overruns :
          write_from p buf
            (clip p s.pos count)
            (s.pos / p.erasesize)
            (s.pos % p.erasesize)
            kbuf
            (started p s (s.pos / p.erasesize))
          ≡ fault
      copy_overruns =
          let first : (s.pos == 0) ≡ true = ground arith in
          let past : ltb (length kbuf) (0 + p.size) ≡ true =
            lt→ltb _ _ (omega (arith, sized.kmalloc_size s.world p.erasesize mem)) in
          rw (all, first, past) refl
