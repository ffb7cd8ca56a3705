-- ===== src/Flash/Write/Steps.antt =====
-- The parts of `at91flash_write` stay within their buffers and free them.
use at91_sam9x25_drivers.Prelude.{
  ℕ, ◌+◌, ◌-◌, ◌*◌, ◌^◌, ◌≤◌, ◌<◌, ◌≡◌, refl, ◌∙◌, List, length, inl, inr, Option-cases, arith,
  le→not_ltb, length-overlay,
}
use at91_sam9x25_drivers.Kernel.{err, efault, u32}
use at91_sam9x25_drivers.Flash.Board.{Board, IsSized}
use at91_sam9x25_drivers.Flash.State.{Flash, Action, kfree, leave, ◌>>◌}
use at91_sam9x25_drivers.Flash.Ensures.{Ensures, Returns, bind-Ensures, map-Ensures}
use at91_sam9x25_drivers.Flash.Blocks.{erase_eraseblock}
use at91_sam9x25_drivers.Flash.Search.{write_second_block}
use at91_sam9x25_drivers.Flash.Search.Located.{Located, search-Ensures}
use at91_sam9x25_drivers.Flash.Read.Safe.{IsDone, Holds, release, Kept-Holds, Located-on_device}
use at91_sam9x25_drivers.Flash.Write.{
  fill, read_block, erase_or_leave, program, write_whole, second_part, write_split,
}

module _ (p : Board) (sized : IsSized p) where
  -- The same device and position, with another world.
  pub record Moved (h : ℕ) (s s' : Flash p.World) : Type 0 where
    pub holds : Holds p sized h s'
    pub pos : s'.pos ≡ s.pos
    pub ebcnt : s'.ebcnt ≡ s.ebcnt

  pub fill-Ensures :
      (h : ℕ) (kbuf : List ℕ) (off buf n : ℕ) (s : Flash p.World)
      → Holds p sized h s
      → length kbuf ≡ p.erasesize
      → off + n ≤ p.erasesize
      → Ensures
          (λ b s'. (length b ≡ p.erasesize) × Moved h s s')
          (IsDone p sized h)
          (fill p kbuf off buf n s)
  unfolding fill
  fill-Ensures h kbuf off buf n s (v, e) len fits =
      elim (Option-cases (p.copy_from_user s.world buf n)) [
        | inl none_copied ↦
            rw (le→not_ltb (length kbuf) (off + n) (omega arith), none_copied)
              (release p sized h s (v, e))
        | inr (b, e') ↦
            rw (le→not_ltb (length kbuf) (off + n) (omega arith), e')
              (
                length-overlay kbuf off b (omega (arith, sized.copy_size s.world buf n e')) ∙ len,
                record { holds = (v, e); pos = refl; ebcnt = refl },
              )
      ]

  pub read_block-Ensures :
      (h : ℕ) (kbuf : List ℕ) (ebnum : ℕ) (s : Flash p.World)
      → Holds p sized h s
      → length kbuf ≡ p.erasesize
      → Ensures
          (λ b s'. (length b ≡ p.erasesize) × Moved h s s')
          (IsDone p sized h)
          (read_block p kbuf ebnum s)
  unfolding read_block
  read_block-Ensures h kbuf ebnum s (v, e) len =
      let at = u32 (ebnum * p.erasesize) in
      let bytes = (p.mtd_read s.world at p.erasesize).1 in
      ground (arith, v, sized.read_size s.world at p.erasesize, length-overlay kbuf 0 bytes)

  erase_or_leave-Ensures :
      (h ebnum : ℕ) (s : Flash p.World)
      → Holds p sized h s
      → Ensures (λ _ s'. Moved h s s') (IsDone p sized h) (erase_or_leave p ebnum s)
  unfolding erase_or_leave erase_eraseblock
  erase_or_leave-Ensures h ebnum s (v, e) = ground (arith, v)

  program-Ensures :
      (h ebnum : ℕ) (kbuf : List ℕ) (s : Flash p.World)
      → Holds p sized h s
      → Ensures
          (λ n s'. Moved h s s' × (n ≤ length kbuf))
          (IsDone p sized h)
          (program p ebnum kbuf s)
  unfolding program
  program-Ensures h ebnum kbuf s (v, e) =
      ground (arith, v, sized.write_size s.world (u32 (ebnum * p.erasesize)) kbuf)

  moves :
      (h n : ℕ) (s : Flash p.World)
      → Holds p sized h s
      → s.pos + n ≤ p.size + p.erasesize
      → Holds p sized h (record s { pos = s.pos + n })
  moves h n s (v, e) le = ground (arith, v)

  pub write_whole-Returns :
      (h ebnum : ℕ) (kbuf : List ℕ) (s : Flash p.World)
      → Holds p sized h s
      → s.pos ≤ p.size
      → length kbuf ≡ p.erasesize
      → Returns (IsDone p sized h) (write_whole p ebnum kbuf s)
  unfolding write_whole
  write_whole-Returns h ebnum kbuf s held at len =
      bind-Ensures _ _ _ (erase_or_leave p ebnum s) _ (erase_or_leave-Ensures h ebnum s held)
        λ _ s1 m.
          bind-Ensures (λ n s'. Moved h s1 s' × (n ≤ length kbuf)) _ _ (program p ebnum kbuf s1) _
            (program-Ensures h ebnum kbuf s1 m.holds)
            λ n s2 q.
              release p sized h _ (moves h n s2 q.0.holds (omega (arith, q, m.pos, q.0.pos)))

  write_second-Ensures :
      (h : ℕ) (s : Flash p.World)
      → Holds p sized h s
      → Ensures
          (λ _ s'. Holds p sized h s' × (s'.pos < p.size))
          (IsDone p sized h)
          (write_second_block p s)
  unfolding write_second_block
  write_second-Ensures h s (v, e) =
      map-Ensures (Located p s) _ (IsDone p sized h) (write_second_block p s)
        (λ b s' l.
          (Kept-Holds p sized h s s' (v, e) l.kept, (Located-on_device p sized s s' b l).0))
        (search-Ensures p (IsDone p sized h) exit exit s v
          (λ s' k. release p sized h s' (Kept-Holds p sized h s s' (v, e) k))
          (λ s' k. release p sized h s' (Kept-Holds p sized h s s' (v, e) k)))
    where
      exit : Action p.World (ℕ × ℕ)
      exit = kfree >> leave (err efault)

  second_part-Returns :
      (h buf rest count : ℕ) (kbuf : List ℕ) (s : Flash p.World)
      → Holds p sized h s
      → length kbuf ≡ p.erasesize
      → rest ≤ p.erasesize
      → Returns (IsDone p sized h) (second_part p buf rest count kbuf s)
  unfolding second_part
  second_part-Returns h buf rest count kbuf s held len le =
      bind-Ensures _ _ _ (write_second_block p s) _ (write_second-Ensures h s held) λ b s1 l.
        bind-Ensures (λ k s'. (length k ≡ p.erasesize) × Moved h s1 s') _ _
          (read_block p kbuf b.0 s1) _ (read_block-Ensures h kbuf b.0 s1 l.0 len)
          λ k2 s2 q2.
            bind-Ensures (λ k s'. (length k ≡ p.erasesize) × Moved h s2 s') _ _
              (fill p k2 0 buf rest s2) _
              (fill-Ensures h k2 0 buf rest s2 q2.1.holds q2.0 (omega arith))
              λ k3 s3 q3.
                bind-Ensures (λ _ s'. Moved h s3 s') _ _ (erase_or_leave p b.0 s3) _
                  (erase_or_leave-Ensures h b.0 s3 q3.1.holds)
                  λ _ s4 m4.
                    bind-Ensures (λ n s'. Moved h s4 s' × (n ≤ length k3)) _ _ (program p b.0 k3 s4)
                      _ (program-Ensures h b.0 k3 s4 m4.holds)
                      λ _ s5 m5. release p sized h _ (
                        moves h rest s5 m5.0.holds
                          (omega (arith, m5.0.pos, m4.pos, q3.1.pos, q2.1.pos, l.1)))

  pub write_split-Returns :
      (h buf count ebnum off : ℕ) (kbuf : List ℕ) (s : Flash p.World)
      → Holds p sized h s
      → length kbuf ≡ p.erasesize
      → (ebnum + 1) * p.erasesize ≤ p.size
      → s.pos + (p.erasesize - off) ≡ (ebnum + 1) * p.erasesize
      → off < p.erasesize
      → count ≤ p.erasesize
      → p.erasesize - off ≤ count
      → Returns (IsDone p sized h) (write_split p buf count ebnum off kbuf s)
  unfolding write_split
  write_split-Returns h buf count ebnum off kbuf s held len inside end off_lt few more =
      let v = held.0 in
      let e_le : p.erasesize ≤ (ebnum + 1) * p.erasesize = grind arith in
      let head : u32 (p.erasesize + 2 ^ 32 - off) ≡ p.erasesize - off = omega (arith, v.fits) in
      let rest : u32 (count + 2 ^ 32 - (p.erasesize - off)) ≡ count - (p.erasesize - off) =
        omega (arith, v.fits) in
      rw (head, rest)
        (bind-Ensures (λ k s'. (length k ≡ p.erasesize) × Moved h s s') _ _
          (fill p kbuf off buf (p.erasesize - off) s) _
          (fill-Ensures h kbuf off buf (p.erasesize - off) s held len (omega arith))
          λ k1 s1 q1.
            bind-Ensures (λ _ s'. Moved h s1 s') _ _ (erase_or_leave p ebnum s1) _
              (erase_or_leave-Ensures h ebnum s1 q1.1.holds)
              λ _ s2 m2.
                bind-Ensures (λ n s'. Moved h s2 s' × (n ≤ length k1)) _ _ (program p ebnum k1 s2) _
                  (program-Ensures h ebnum k1 s2 m2.holds)
                  λ _ s3 m3.
                    second_part-Returns h (buf + (p.erasesize - off)) (count - (p.erasesize - off))
                      count k1 _
                      (moves h (p.erasesize - off) s3 m3.0.holds
                        (omega (arith, m3.0.pos, m2.pos, q1.1.pos)))
                      q1.0 (omega arith))
