-- ===== src/Flash/Write/Landed.antt =====
-- A write that starts in a bad block.
use at91_sam9x25_drivers.Prelude.{
  ℕ, ◌+◌, ◌≤◌, ◌<◌, ◌≡◌, refl, sym, ◌∙◌, ap, false, some, ◌==◌, not, ◌&&◌, ltb, arith,
}
use at91_sam9x25_drivers.Kernel.{err, efault, u64}
use at91_sam9x25_drivers.Flash.Board.{Board}
use at91_sam9x25_drivers.Flash.State.{Flash, leave, and_then, Action, ◌>>=◌}
use at91_sam9x25_drivers.Flash.Search.{write_first_block}
use at91_sam9x25_drivers.Flash.Search.Ready.{IsReady}
use at91_sam9x25_drivers.Flash.Search.Lands.{
  lands, landed, landed-IsReady, landed-forward, search-rests,
}
use at91_sam9x25_drivers.Flash.Read.{clip, kmalloc_or_leave}
use at91_sam9x25_drivers.Flash.Write.{write_from, write}

module _ (p : Board) where
  -- Past its guards a write searches, allocates and goes on.
  abbrev after_search : (buf count : ℕ) → ℕ × ℕ → Action p.World (Unit {0})
  after_search buf count block =
      kmalloc_or_leave p p.erasesize >>= λ kbuf. write_from p buf count block.0 block.1 kbuf

  write_searches :
      (buf count : ℕ) (s : Flash p.World)
      → IsReady p s
      → 0 < count
      → count ≤ p.erasesize
      → s.pos + count ≤ p.size
      → write p buf count s ≡ and_then (write_first_block p s) (after_search buf count)
  unfolding write
  write_searches buf count s v some_bytes at_most inside =
      let whole : clip p s.pos count ≡ count = ground (arith, v.fits, inside) in
      let guard : not (ltb p.size (u64 (s.pos + count))) && ltb p.erasesize count ≡ false =
        ground (arith, at_most) in
      let nonzero : (count == 0) ≡ false = ground (arith, some_bytes) in
      rw (guard, whole, nonzero) refl

  -- A write behind bad blocks is one from the next good block.
  pub write-landed :
      (buf count : ℕ) (s : Flash p.World) (g : ℕ) (v : IsReady p s) (e : lands p s ≡ some g)
      → 0 < count
      → count ≤ p.erasesize
      → (landed p s g).pos + count ≤ p.size
      → write p buf count s ≡ write p buf count (landed p s g)
  unfolding write_first_block
  write-landed buf count s g v e some_bytes at_most inside =
      write_searches buf count s v some_bytes at_most
        (omega (arith, inside, landed-forward p s g v e))
      ∙ ap (λ o. and_then o (after_search buf count))
          (sym (search-rests p s g v e (leave (err efault)) (leave (err efault))))
      ∙ sym (
          write_searches buf count (landed p s g) (landed-IsReady p s g v e) some_bytes at_most
            inside)
