-- ===== src/Flash/RoundTrip.antt =====
-- Data that are written through flash/at91flash.c and read back.
use at91_sam9x25_drivers.Prelude.{
  ℕ, ◌+◌, ◌^◌, ◌≤◌, ◌<◌, ◌≡◌, ◌≢◌, sym, ◌∙◌, ap, some, List, ◌++◌, length, take, drop, region,
  arith, length-region, length-append, take-append,
}
use at91_sam9x25_drivers.Prelude.Int.{pos}
use at91_sam9x25_drivers.Kernel.{val}
use at91_sam9x25_drivers.Flash.Board.{Board, IsSized}
use at91_sam9x25_drivers.Flash.Chip.{IsHealthy}
use at91_sam9x25_drivers.Flash.State.{Flash, next, returned}
use at91_sam9x25_drivers.Flash.Search.Ready.{IsReady}
use at91_sam9x25_drivers.Flash.Search.Lands.{landed-forward}
use at91_sam9x25_drivers.Flash.Tape.{remaining}
use at91_sam9x25_drivers.Flash.Seek.{lseek, seek_set}
use at91_sam9x25_drivers.Flash.Seek.Bounds.{lseek_set}
use at91_sam9x25_drivers.Flash.Read.{read, max_kmalloc_size}
use at91_sam9x25_drivers.Flash.Read.Landed.{lands_somewhere, landed_room}
use at91_sam9x25_drivers.Flash.Read.Refines.{read-refines}
use at91_sam9x25_drivers.Flash.Write.{write}
use at91_sam9x25_drivers.Flash.Write.Safe.{write-IsDone}
use at91_sam9x25_drivers.Flash.Write.Refines.{write-refines}

-- A well-formed driver stays so in another world and at another position on the device.
pub moved :
    (p : Board) (s : Flash p.World) (w : p.World) (n : ℕ)
    → IsReady p s
    → n ≤ p.size
    → IsReady p (record s { world = w; pos = n })
moved p s w n r le = record {
  block_pos = r.block_pos;
  fits = r.fits;
  whole = r.whole;
  few = r.few;
  table = r.table;
  at = omega arith;
  known = r.known;
}

module _ (p : Board) (sized : IsSized p) (h : IsHealthy p) (count : ℕ) (s : Flash p.World)
    (v : IsReady p s) (some_bytes : 0 < count) (enough : count ≤ length (remaining p h s)) where
  -- The bytes that remain lie on the device.
  inside : s.pos + count ≤ p.size
  inside =
      let (g, found) = lands_somewhere p h s (omega arith) in
      omega (arith, landed_room p h s g v found, landed-forward p s g v found)

  pub write-IsReady :
      (buf n : ℕ) (s1 : Flash p.World)
      → count < 2 ^ 32
      → write p buf count s ≡ returned (val n) s1
      → IsReady p s1
  write-IsReady buf n s1 small runs =
      let done =
        write-IsDone p sized buf count s v small (λ past. absurd (omega (arith, inside, past))) in
      (rw runs at done).0

  -- What is written away from position 0, and read back from there after a seek, arrives in the
  -- user's memory unchanged, wherever bad blocks lie, for at least a byte, at most a block, at most
  -- 128 KiB and no more bytes than the good blocks have behind the position, where memory can be had
  -- and the user's buffers can be read and written.
  pub write-then_read :
      (buf dst : ℕ)
      → s.pos ≢ 0
      → count ≤ p.erasesize
      → count ≤ max_kmalloc_size
      → ((a n : ℕ) → buf ≤ a → a + n ≤ buf + count → h.mapped a n)
      → ((a n : ℕ) → dst ≤ a → a + n ≤ dst + count → h.mapped a n)
      → ((w : p.World) (n : ℕ) → (mem : List ℕ) × (p.kmalloc w n ≡ some mem))
      → (n : ℕ) × (m : ℕ) × (s1 : Flash p.World) × (s2 : Flash p.World) × (s3 : Flash p.World)
        × (write p buf count s ≡ returned (val n) s1)
        × (lseek p (pos s.pos) seek_set s1 ≡ next (val s.pos) s2)
        × (read p dst count s2 ≡ returned (val m) s3)
        × (region (h.user s3.world) dst count ≡ region (h.user s.world) buf count)
  write-then_read buf dst later at_most moderate readable writable allocates =
      let (n, s1, _, _, writes, tape_write) =
        write-refines p sized h buf count s (allocates s.world p.erasesize).0 v later some_bytes
          at_most enough readable (allocates s.world p.erasesize).1 in
      let s2 : Flash p.World = record s1 { pos = s.pos } in
      let ready : IsReady p s2 =
        moved p s1 s1.world s.pos (write-IsReady buf n s1 (omega (arith, moderate)) writes)
          (omega (arith, inside)) in
      let data_in = region (h.user s.world) buf count in
      let size : length data_in ≡ count = length-region (h.user s.world) buf count in
      let left : remaining p h s2 ≡ data_in ++ drop count (remaining p h s) = tape_write.stores in
      let (m, s3, _, _, reads, tape_read) =
        read-refines p h dst count s2 ready some_bytes at_most moderate
          (omega
            (arith, ap length left, length-append data_in (drop count (remaining p h s)), size))
          writable (allocates s2.world count).1 in
      (
        n,
        m,
        s1,
        s2,
        s3,
        writes,
        lseek_set p s.pos s1 (omega (arith, inside)),
        reads,
        tape_read.hands
            ∙ ap (take count) left
            ∙ ap (λ k. take k (data_in ++ drop count (remaining p h s))) (sym size)
            ∙ take-append data_in (drop count (remaining p h s)),
      )
