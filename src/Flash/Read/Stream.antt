-- ===== src/Flash/Read/Stream.antt =====
-- Reads of flash/at91flash.c one after another, as a program makes them that copies the device.
use at91_sam9x25_drivers.Prelude.{
  ℕ, ◌+◌, ◌-◌, ◌^◌, ◌≤◌, ◌<◌, ◌≡◌, refl, sym, ◌∙◌, ap, ap₂, subst, some, List, [], ◌∷◌, ◌++◌,
  length, take, drop, region, arith, length-drop, take-add, drop-add,
}
use at91_sam9x25_drivers.Kernel.{val}
use at91_sam9x25_drivers.Flash.Board.{Board, IsSized}
use at91_sam9x25_drivers.Flash.Chip.{IsHealthy}
use at91_sam9x25_drivers.Flash.State.{Flash, returned}
use at91_sam9x25_drivers.Flash.Search.Ready.{IsReady}
use at91_sam9x25_drivers.Flash.Tape.{remaining}
use at91_sam9x25_drivers.Flash.Read.{read, max_kmalloc_size}
use at91_sam9x25_drivers.Flash.Read.Safe.{read-IsDone}
use at91_sam9x25_drivers.Flash.Read.Refines.{read-refines}

abbrev pub total : List ℕ → ℕ
total [] = 0
total (n ∷ ns) = n + total ns

module _ (p : Board) (sized : IsSized p) (h : IsHealthy p) (buf : ℕ) where
  -- Reads of `counts` bytes that report no error, and all bytes that the buffer has after each.
  pub data Stream : (counts bytes : List ℕ) (s s' : Flash p.World) → Type 0 where
    ends : {s : Flash p.World} → Stream [] [] s s
    reads :
        {count n : ℕ} {counts bytes : List ℕ} {s t u : Flash p.World}
        → read p buf count s ≡ returned (val n) t
        → Stream counts bytes t u
        → Stream (count ∷ counts) (region (h.user t.world) buf count ++ bytes) s u

  -- Each read asks for at least a byte and at most a block, which one allocation can hold.
  abbrev pub AreModerate : List ℕ → Type 0
  AreModerate [] = Unit
  AreModerate (n ∷ ns) = (0 < n) × (n ≤ p.erasesize) × (n ≤ max_kmalloc_size) × AreModerate ns

  read-IsReady :
      (count n : ℕ) (s t : Flash p.World)
      → IsReady p s
      → count < 2 ^ 32
      → read p buf count s ≡ returned (val n) t
      → IsReady p t
  read-IsReady count n s t v small runs =
      let done = read-IsDone p sized buf count s v small in (rw runs at done).0

  module _ (allocates : (w : p.World) (n : ℕ) → (mem : List ℕ) × (p.kmalloc w n ≡ some mem)) where
    -- Reads one after another give the bytes of the good blocks in their order, none left out and none
    -- twice, however the reads are cut and wherever bad blocks lie, as long as there are bytes; what
    -- comes behind is left. Memory can be had and the buffer be written.
    pub read-streams :
        (counts : List ℕ) (s : Flash p.World)
        → IsReady p s
        → AreModerate counts
        → ((count : ℕ)
            → count ≤ p.erasesize
            → (a n : ℕ) → buf ≤ a
            → a + n ≤ buf + count
            → h.mapped a n)
        → total counts ≤ length (remaining p h s)
        → (s' : Flash p.World) × Stream counts (take (total counts) (remaining p h s)) s s'
          × (remaining p h s' ≡ drop (total counts) (remaining p h s))
    read-streams [] s v ok writable enough = (s, ends, refl)
    read-streams (count ∷ counts) s v (some_bytes, at_most, moderate, ok) writable enough =
        let (n, t, _, _, runs, tape_read) =
          read-refines p h buf count s v some_bytes at_most moderate (omega (arith, enough))
            (writable count at_most) (allocates s.world count).1 in
        let ready = read-IsReady count n s t v (omega (arith, moderate)) runs in
        let left : length (remaining p h t) ≡ length (remaining p h s) - count =
          ap length tape_read.goes_on ∙ length-drop count (remaining p h s) in
        let (u, stream, end) =
          read-streams counts t ready ok writable (omega (arith, left, enough)) in
        (
          u,
          subst (λ bytes. Stream (count ∷ counts) bytes s u)
              (ap₂ ◌++◌ tape_read.hands (ap (take (total counts)) tape_read.goes_on)
                ∙ sym (take-add count (total counts) (remaining p h s)))
              (reads runs stream),
          end
              ∙ ap (drop (total counts)) tape_read.goes_on
              ∙ sym (drop-add count (total counts) (remaining p h s)),
        )
