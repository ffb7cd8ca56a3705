-- ===== src/Flash/Read/Safe.antt =====
-- `at91flash_read` always returns, and stays within its buffers.
use at91_sam9x25_drivers.Prelude.{
  ℕ, suc, ◌+◌, ◌-◌, ◌*◌, ◌^◌, ◌≤◌, ◌<◌, ◌≡◌, refl, ◌∙◌, List, length, inl, inr, Bool-cases,
  Option-cases, if◌then◌else◌, ◌==◌, ltb, arith, div_bounds, mul_mono,
}
use native.Mathlib.Nat.{mod-eq_of_lt}
use at91_sam9x25_drivers.Kernel.{Ret, val, err, efault, u32}
use at91_sam9x25_drivers.Flash.Board.{Board, IsSized}
use at91_sam9x25_drivers.Flash.State.{Flash, kfree, leave, ◌>>◌, ◌>>=◌}
use at91_sam9x25_drivers.Flash.Ensures.{Ensures, Returns, bind-Ensures, map-Ensures}
use at91_sam9x25_drivers.Flash.Search.{read_first_block, read_second_block}
use at91_sam9x25_drivers.Flash.Search.Ready.{IsReady, u32_block}
use at91_sam9x25_drivers.Flash.Search.Located.{Kept, Located, search-Ensures}
use at91_sam9x25_drivers.Flash.Read.{
  kmalloc_or_leave, read_chunk, deliver, read_whole, read_split, read_from, read, clip,
  max_kmalloc_size,
}

module _ (p : Board) (sized : IsSized p) where
  -- At a `return`: the device is well formed and no memory is held beyond `h`.
  abbrev pub IsDone : ℕ → Ret → Flash p.World → Type 0
  IsDone h r s = IsReady p s × (s.held ≡ h)

  -- In the midst of a handler, which holds its buffer.
  abbrev pub Holds : ℕ → Flash p.World → Type 0
  Holds h s = IsReady p s × (s.held ≡ suc h)

  pub release :
      (h : ℕ) (s : Flash p.World) → Holds h s → IsDone h (val 0) (record s { held = s.held - 1 })
  release h s (v, e) = ground (arith, v)

  pub Kept-Holds : (h : ℕ) (s s' : Flash p.World) → Holds h s → Kept p s s' → Holds h s'
  Kept-Holds h s s' (v, e) k = (k.ready, k.held ∙ e)

  -- A position in a block of the device is on the device.
  pub Located-on_device :
      (s s' : Flash p.World) (b : ℕ × ℕ)
      → Located p s b s'
      → (s'.pos < p.size) × (b.0 * p.erasesize ≤ s'.pos) × (s'.pos < (b.0 + 1) * p.erasesize)
  Located-on_device s s' b l =
      let v = l.kept.ready in
      let le : (b.0 + 1) * p.erasesize ≤ s'.ebcnt * p.erasesize =
        mul_mono (b.0 + 1) s'.ebcnt p.erasesize (omega (arith, l.inside)) in
      let bounds : (b.0 * p.erasesize ≤ s'.pos) × (s'.pos < (b.0 + 1) * p.erasesize) =
        rw l.block (div_bounds s'.pos p.erasesize v.block_pos) in
      (omega (arith, v.whole), bounds.0, bounds.1)

  deliver-Ensures :
      (h buf : ℕ) (bytes : List ℕ) (s : Flash p.World)
      → Holds h s
      → s.pos + length bytes ≤ p.size
      → Ensures (λ _ s'. Holds h s') (IsDone h) (deliver p buf bytes s)
  unfolding deliver
  deliver-Ensures h buf bytes s (v, e) le = ground (arith, v)

  read_chunk-Ensures :
      (h room len : ℕ) (s : Flash p.World)
      → Holds h s
      → len ≤ room
      → s.pos ≤ p.size
      → Ensures
          (λ bytes s'. Holds h s' × (length bytes ≤ len) × (s'.pos + length bytes ≤ p.size))
          (IsDone h)
          (read_chunk p room len s)
  unfolding read_chunk
  read_chunk-Ensures h room len s (v, e) le at =
      ground (arith, v, sized.read_size s.world s.pos len, sized.read_inside s.world s.pos len)

  read_whole-Returns :
      (h buf count : ℕ) (s : Flash p.World)
      → Holds h s
      → s.pos ≤ p.size
      → Returns (IsDone h) (read_whole p buf count s)
  unfolding read_whole
  read_whole-Returns h buf count s held at =
      bind-Ensures _ _ _ (read_chunk p count count s) _
        (read_chunk-Ensures h count count s held (omega arith) at)
        λ bytes s1 q.
          bind-Ensures _ _ _ (deliver p buf bytes s1) _ (deliver-Ensures h buf bytes s1 q.0 q.2)
            λ _ s2 q2. release h s2 q2

  read_second-Ensures :
      (h n : ℕ) (s : Flash p.World)
      → Holds h s
      → Ensures (λ b s'. Holds h s' × (s'.pos < p.size)) (IsDone h) (read_second_block p n s)
  unfolding read_second_block
  read_second-Ensures h n s (v, e) =
      map-Ensures (Located p s) _ (IsDone h) (read_second_block p n s)
        (λ b s' l. (Kept-Holds h s s' (v, e) l.kept, (Located-on_device s s' b l).0))
        (search-Ensures p (IsDone h) (kfree >> leave (val n)) (kfree >> leave (err efault)) s v
          (λ s' k. release h s' (Kept-Holds h s s' (v, e) k))
          (λ s' k. release h s' (Kept-Holds h s s' (v, e) k)))

  read_split-Returns :
      (h buf count ebnum : ℕ) (s : Flash p.World)
      → Holds h s
      → s.pos ≤ p.size
      → ebnum < s.ebcnt
      → s.pos < (ebnum + 1) * p.erasesize
      → (ebnum + 1) * p.erasesize < s.pos + count
      → count < 2 ^ 32
      → Returns (IsDone h) (read_split p buf count ebnum s)
  unfolding read_split
  read_split-Returns h buf count ebnum s held at lt low high small =
      bind-Ensures _ _ _ (read_chunk p count len s) _
        (read_chunk-Ensures h count len s held fits at)
        λ bytes s1 q.
          bind-Ensures _ _ _ (deliver p buf bytes s1) _ (deliver-Ensures h buf bytes s1 q.0 q.2)
            λ _ s2 q2.
              bind-Ensures _ _ _ (read_second_block p (length bytes) s2) _
                (read_second-Ensures h (length bytes) s2 q2)
                λ b s3 q3.
                  let rest = u32 (count + 2 ^ 32 - length bytes) in
                  bind-Ensures _ _ _ (read_chunk p count rest s3) _
                    (read_chunk-Ensures h count rest s3 q3.0 (omega (arith, q.1))
                      (omega (arith, q3.1)))
                    λ more s4 q4.
                      bind-Ensures _ _ _ (deliver p (buf + length bytes) more s4) _
                        (deliver-Ensures h (buf + length bytes) more s4 q4.0 q4.2)
                        λ _ s5 q5. release h s5 q5
    where
      v : IsReady p s
      v = held.0

      len : ℕ
      len = u32 (u32 ((ebnum + 1) * p.erasesize) + 2 ^ 64 - s.pos)

      fits : len ≤ count
      fits =
          rw
            ((u32_block ebnum s.ebcnt p.erasesize lt (omega (arith, v.fits, v.whole))
              v.block_pos).2)
            (omega arith)

  read_from-Returns :
      (h buf count ebnum : ℕ) (s : Flash p.World)
      → Holds h s
      → s.pos ≤ p.size
      → ebnum < s.ebcnt
      → s.pos < (ebnum + 1) * p.erasesize
      → count < 2 ^ 32
      → Returns (IsDone h) (read_from p buf count ebnum s)
  unfolding read_from
  read_from-Returns h buf count ebnum s held at lt low small =
      rw (ends, mod-eq_of_lt sum_fits)
        (ground (arith, split, read_whole-Returns h buf count s held at, release h s held))
    where
      v : IsReady p s
      v = held.0

      ends : u32 ((ebnum + 1) * p.erasesize) ≡ (ebnum + 1) * p.erasesize
      ends = (u32_block ebnum s.ebcnt p.erasesize lt (omega (arith, v.fits, v.whole)) v.block_pos).2

      sum_fits : s.pos + count < 2 ^ 64
      sum_fits = omega (arith, v.fits)

      split :
          (ebnum + 1) * p.erasesize < s.pos + count
          → Returns (IsDone h) (read_split p buf count ebnum s)
      split high = read_split-Returns h buf count ebnum s held at lt low high small

  -- `count` cut down ends on the device.
  pub clip_bounds :
      (start count : ℕ)
      → p.size < 2 ^ 32
      → start ≤ p.size
      → count < 2 ^ 32
      → (start + clip p start count ≤ p.size) × (clip p start count ≤ count)
  clip_bounds start count fits at small = ground arith

  pub kmalloc-Ensures :
      (h n : ℕ) (s : Flash p.World)
      → IsReady p s
      → s.held ≡ h
      → Ensures
          (λ b s'. (length b ≡ n) × Holds h s' × (s' ≡ record s { held = s.held + 1 }))
          (IsDone h)
          (kmalloc_or_leave p n s)
  unfolding kmalloc_or_leave
  kmalloc-Ensures h n s v eh = elim (Option-cases (p.kmalloc s.world n)) [
    | inl e ↦ rw e (v, eh)
    | inr (b, e) ↦ rw e (sized.kmalloc_size s.world n e, (ground (arith, v), omega arith), refl)
  ]

  -- From a well-formed device `at91flash_read` returns, whatever the chip, the allocator and the
  -- user's memory do: no access leaves a buffer or the table, no loop goes on for ever, the buffer
  -- is freed on every path, and the device is well formed again.
  pub read-IsDone :
      (buf count : ℕ) (s : Flash p.World)
      → IsReady p s
      → count < 2 ^ 32
      → Returns (IsDone s.held) (read p buf count s)
  unfolding read read_first_block
  read-IsDone buf count s v small =
      bind-Ensures (Located p s) _ _ (read_first_block p s) _
        (search-Ensures p (IsDone s.held) (leave (err efault)) (leave (err efault)) s v
          (λ s' k. (k.ready, k.held)) (λ s' k. (k.ready, k.held)))
        λ b s1 l. elim (Bool-cases (clip p s1.pos count == 0)) [
          | inl e ↦ rw e (l.kept.ready, l.kept.held)
          | inr e ↦ rw e (allocate b s1 l)
        ]
    where
      room : ℕ → ℕ
      room n = if ltb max_kmalloc_size n then max_kmalloc_size else n

      allocate :
          (b : ℕ × ℕ) (s1 : Flash p.World)
          → Located p s b s1
          → Returns (IsDone s.held) (
              (kmalloc_or_leave p (room (clip p s1.pos count)) >>= λ _.
              read_from p buf (room (clip p s1.pos count)) b.0)
                s1)
      allocate b s1 l =
          let n = room (clip p s1.pos count) in
          let on_device = Located-on_device s s1 b l in
          let fits = clip_bounds s1.pos count v.fits (omega (arith, on_device)) small in
          bind-Ensures _ _ _ (kmalloc_or_leave p n s1) _
            (kmalloc-Ensures s.held n s1 l.kept.ready l.kept.held)
            λ _ s2 q.
              read_from-Returns s.held buf n b.0 s2 q.1 (rw q.2 (omega (arith, on_device)))
                (rw q.2 l.inside) (rw q.2 on_device.2) (ground (arith, fits))
