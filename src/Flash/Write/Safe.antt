-- ===== src/Flash/Write/Safe.antt =====
-- `at91flash_write` returns, and stays within its buffers where no more than a block is left to write.
use at91_sam9x25_drivers.Prelude.{
  ℕ, ◌+◌, ◌-◌, ◌*◌, ◌%◌, ◌^◌, ◌≤◌, ◌<◌, ◌≡◌, refl, false, List, length, inl, inr, Bool-cases, ◌==◌,
  ltb, arith, mul_mono, not, ◌&&◌,
}
use native.Mathlib.Nat.{mod-eq_of_lt, div-add-mod', mod-lt}
use at91_sam9x25_drivers.Kernel.{err, efault, u32, u64}
use at91_sam9x25_drivers.Flash.Board.{Board, IsSized}
use at91_sam9x25_drivers.Flash.State.{Flash, leave, ◌>>=◌}
use at91_sam9x25_drivers.Flash.Ensures.{Returns, bind-Ensures}
use at91_sam9x25_drivers.Flash.Search.{write_first_block}
use at91_sam9x25_drivers.Flash.Search.Ready.{IsReady}
use at91_sam9x25_drivers.Flash.Search.Located.{Located, search-Ensures}
use at91_sam9x25_drivers.Flash.Read.{kmalloc_or_leave, clip}
use at91_sam9x25_drivers.Flash.Read.Safe.{
  IsDone, Holds, release, Located-on_device, kmalloc-Ensures,
}
use at91_sam9x25_drivers.Flash.Write.{fill, read_block, write_whole, assemble, write_from, write}
use at91_sam9x25_drivers.Flash.Write.Steps.{
  Moved, fill-Ensures, read_block-Ensures, write_whole-Returns, write_split-Returns,
}

module _ (p : Board) (sized : IsSized p) where
  fill_whole-Returns :
      (h buf count ebnum off : ℕ) (kbuf : List ℕ) (s : Flash p.World)
      → Holds p sized h s
      → length kbuf ≡ p.erasesize
      → s.pos ≤ p.size
      → off + count ≤ p.erasesize
      → Returns (IsDone p sized h) ((fill p kbuf off buf count >>= λ k. write_whole p ebnum k) s)
  fill_whole-Returns h buf count ebnum off kbuf s held len at fits =
      bind-Ensures (λ k s'. (length k ≡ p.erasesize) × Moved p sized h s s') _ _
        (fill p kbuf off buf count s) _ (fill-Ensures p sized h kbuf off buf count s held len fits)
        λ k s1 q. write_whole-Returns p sized h ebnum k s1 q.1.holds (omega (arith, q.1.pos)) q.0

  assemble-Returns :
      (h buf count ebnum off : ℕ) (kbuf : List ℕ) (s : Flash p.World)
      → Holds p sized h s
      → length kbuf ≡ p.erasesize
      → s.pos ≤ p.size
      → (ebnum + 1) * p.erasesize ≤ p.size
      → s.pos + (p.erasesize - off) ≡ (ebnum + 1) * p.erasesize
      → off < p.erasesize
      → count ≤ p.erasesize
      → Returns (IsDone p sized h) (assemble p buf count ebnum off kbuf s)
  unfolding assemble
  assemble-Returns h buf count ebnum off kbuf s held len at inside end off_lt few =
      let v = held.0 in
      let block_end : u32 ((ebnum + 1) * p.erasesize) ≡ (ebnum + 1) * p.erasesize =
        mod-eq_of_lt (omega (arith, v.fits)) in
      let e_le : p.erasesize ≤ (ebnum + 1) * p.erasesize = grind arith in
      let sum : u64 (s.pos + count) ≡ s.pos + count = mod-eq_of_lt (omega (arith, v.fits)) in
      rw (block_end, sum)
        (ground (
          arith,
          fill_whole-Returns h buf count ebnum off kbuf s held len at,
          write_split-Returns p sized h buf count ebnum off kbuf s held len inside end off_lt few,
          release p sized h s held,
        ))

  write_from-Returns :
      (h buf count ebnum off : ℕ) (kbuf : List ℕ) (s : Flash p.World)
      → Holds p sized h s
      → length kbuf ≡ p.erasesize
      → s.pos ≤ p.size
      → (ebnum + 1) * p.erasesize ≤ p.size
      → s.pos + (p.erasesize - off) ≡ (ebnum + 1) * p.erasesize
      → off < p.erasesize
      → count ≤ p.erasesize
      → Returns (IsDone p sized h) (write_from p buf count ebnum off kbuf s)
  unfolding write_from
  write_from-Returns h buf count ebnum off kbuf s held len at inside end off_lt few =
      elim (Bool-cases (s.pos == 0)) [
        | inl first ↦
            rw first (fill_whole-Returns h buf count ebnum 0 kbuf s held len at (omega arith))
        | inr later ↦ rw later (
            bind-Ensures (λ k s'. (length k ≡ p.erasesize) × Moved p sized h s s') _ _
              (read_block p kbuf ebnum s) _ (read_block-Ensures p sized h kbuf ebnum s held len)
              λ k s1 q.
                assemble-Returns h buf count ebnum off k s1 q.1.holds q.0 (omega (arith, q.1.pos))
                  inside (omega (arith, q.1.pos)) off_lt few)
      ]

  -- What the search gives for the arithmetic of the write.
  Located-room :
      (s s' : Flash p.World) (b : ℕ × ℕ)
      → Located p s b s'
      → ((b.0 + 1) * p.erasesize ≤ p.size)
        × (s'.pos + (p.erasesize - b.1) ≡ (b.0 + 1) * p.erasesize)
        × (b.1 < p.erasesize)
  Located-room s s' b l =
      let v = l.kept.ready in
      let lt : s'.pos % p.erasesize < p.erasesize = mod-lt s'.pos v.block_pos in
      (
        omega (arith, mul_mono (b.0 + 1) s'.ebcnt p.erasesize (omega (arith, l.inside)), v.whole),
        rw (l.block, l.offset) (omega (arith, div-add-mod' s'.pos p.erasesize)),
        rw l.offset lt,
      )

  clip_le_block :
      (start count : ℕ)
      → p.size < 2 ^ 32
      → start < p.size
      → count < 2 ^ 32
      → (p.size < start + count → p.size ≤ start + p.erasesize)
      → not (ltb p.size (u64 (start + count))) && ltb p.erasesize count ≡ false
      → clip p start count ≤ p.erasesize
  clip_le_block start count fits at small last e = ground arith

  -- From a well-formed device `at91flash_write` returns, provided that a request which passes the
  -- end of the device starts in the last block: no access leaves a buffer or the table, no loop
  -- goes on for ever, the buffer is freed on every path, and the device is well formed again,
  -- whatever the chip, the allocator and the user's memory do.
  pub write-IsDone :
      (buf count : ℕ) (s : Flash p.World)
      → IsReady p s
      → count < 2 ^ 32
      → (p.size < s.pos + count → p.size ≤ s.pos + p.erasesize)
      → Returns (IsDone p sized s.held) (write p buf count s)
  unfolding write write_first_block
  write-IsDone buf count s v small last =
      elim (Bool-cases (not (ltb p.size (u64 (s.pos + count))) && ltb p.erasesize count)) [
        | inl e ↦ rw e (v, refl)
        | inr e ↦ elim (Bool-cases (clip p s.pos count == 0)) [
          | inl z ↦ rw (e, z) (v, refl)
          | inr nz ↦
              rw (e, nz)
                (bind-Ensures (Located p s) _ _ (write_first_block p s) _
                  (search-Ensures p (IsDone p sized s.held) (leave (err efault))
                    (leave (err efault)) s v (λ s' k. (k.ready, k.held))
                    (λ s' k. (k.ready, k.held)))
                  λ b s1 l.
                    bind-Ensures _ _ _ (kmalloc_or_leave p p.erasesize s1) _
                      (kmalloc-Ensures p sized s.held p.erasesize s1 l.kept.ready l.kept.held)
                      λ kbuf s2 q.
                        let on = (Located-on_device p sized s s1 b l).0 in
                        let room = Located-room s s1 b l in
                        write_from-Returns s.held buf (clip p s.pos count) b.0 b.1 kbuf s2 q.1 q.0
                          (rw q.2 (omega (arith, on))) room.0 (rw q.2 room.1) room.2
                          (clip_le_block s.pos count v.fits (omega (arith, on, l.forward)) small
                            last e))
        ]
      ]
