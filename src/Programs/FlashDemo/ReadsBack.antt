-- ===== src/Programs/FlashDemo/ReadsBack.antt =====
-- What flash/flash_demo.c shows on a chip that works, wherever its bad blocks lie.
use at91_sam9x25_drivers.Prelude.{
  ℕ, ◌≤◌, ◌<◌, ◌≡◌, ◌≢◌, refl, sym, ap, ◌∙◌, true, some, ◌++◌, length, take, drop, replicate,
  region, region-eq, arith, length-region, length-append, take-append, le→leb,
}
use mathlib.Core.Path.{fun_ext}
use at91_sam9x25_drivers.Prelude.Int.{ℤ, pos}
use at91_sam9x25_drivers.Kernel.{val, Ioctls}
use at91_sam9x25_drivers.Flash.Board.{Board, IsSized}
use at91_sam9x25_drivers.Flash.Chip.{IsHealthy}
use at91_sam9x25_drivers.Flash.State.{Flash, next, returned}
use at91_sam9x25_drivers.Flash.Search.Ready.{IsReady, is_bad}
use at91_sam9x25_drivers.Flash.Tape.{tape_from, remaining}
use at91_sam9x25_drivers.Flash.Read.{read, max_kmalloc_size}
use at91_sam9x25_drivers.Flash.Read.Refines.{read-refines}
use at91_sam9x25_drivers.Flash.Write.{write}
use at91_sam9x25_drivers.Flash.Write.Refines.{write-refines}
use at91_sam9x25_drivers.Flash.RoundTrip.{moved, write-IsReady}
use at91_sam9x25_drivers.Flash.Ioctl.{FlashData, ioctl, at91flash_read, at91flash_write}
use at91_sam9x25_drivers.Flash.Ioctl.Laws.{seeked, ioctl-read, ioctl-write}
use at91_sam9x25_drivers.Programs.Memory.{Memory, set_data, shown_data}
use at91_sam9x25_drivers.Programs.Memory.Serves.{
  Serves, sets_bad, replies_bad, set-user, peek-region,
}
use at91_sam9x25_drivers.Programs.FlashArgs.{arguments, arguments-bounds}
use at91_sam9x25_drivers.Programs.FlashDemo.{demo, flash_demo}

module _ (k : Ioctls) (p : Board) (sized : IsSized p) (h : IsHealthy p) (m : Memory p)
    (at len flashdata : ℕ)
    (works : Serves p h m (record { offset = pos at; len = len; pbuf = flashdata }))
    (s : Flash p.World) (v : IsReady p s) (on_device : at ≤ p.size) where
  abbrev karg : FlashData
  karg = record { offset = pos at; len = len; pbuf = flashdata }

  seek_at : (t : Flash p.World) → seeked p (pos at) t ≡ record t { pos = at }
  seek_at t = rw (le→leb at p.size on_device) refl

  module _ (value : ℕ) (later : at ≢ 0) (some_bytes : 0 < len) (at_most : len ≤ p.erasesize)
      (moderate : len ≤ max_kmalloc_size)
      (enough : len
        ≤ length (tape_from (is_bad p s.world) (h.cell s.world) p.erasesize s.ebcnt at)) where
    -- The driver when the data have been set, and then at the offset.
    abbrev data_set : Flash p.World
    data_set = record s { world = m.memset s.world flashdata value len }

    abbrev sought : Flash p.World
    sought = record data_set { pos = at }

    sought-IsReady : IsReady p sought
    sought-IsReady = moved p s data_set.world at v on_device

    sought-remaining :
        remaining p h sought ≡ tape_from (is_bad p s.world) (h.cell s.world) p.erasesize s.ebcnt at
    sought-remaining =
        rw (sets_bad p h m karg works s.world value, fun_ext (works.sets_cell s.world value)) refl

    -- What the two commands leave.
    record IsWritten (s1 : Flash p.World) : Type 0 where
      ready : IsReady p s1
      runs :
          ioctl k p m.fetch m.put_back (at91flash_write k) data_set
          ≡ returned (val 0) (record s1 { world = (m.put_back s1.world karg).1 })
      stores :
          tape_from (is_bad p s1.world) (h.cell s1.world) p.erasesize s1.ebcnt at
          ≡ region (h.user sought.world) flashdata len ++ drop len (remaining p h sought)

    writes : (s1 : Flash p.World) × IsWritten s1
    writes =
        let enough' : len ≤ length (remaining p h sought) = rw sought-remaining enough in
        let (n, s1, _, _, runs, tape_write) =
          write-refines p sized h flashdata len sought (works.allocates sought.world p.erasesize).0
            sought-IsReady later some_bytes at_most enough' works.mapped
            (works.allocates sought.world p.erasesize).1 in
        (
          s1,
          record {
            ready =
                write-IsReady p sized h len sought sought-IsReady some_bytes enough' flashdata n s1
                  (omega (arith, moderate)) runs;
            runs =
                ioctl-write k p m.fetch m.put_back karg data_set (works.fetched data_set.world)
                  (ap (write p flashdata len) (seek_at data_set) ∙ runs) (works.replies s1.world);
            stores = tape_write.stores;
          },
        )

    -- The driver before the read command, after `s1`.
    abbrev overwritten : Flash p.World → Flash p.World
    overwritten s1 = record s1 { world = m.memset (m.put_back s1.world karg).1 flashdata 0xff len }

    -- Neither the answer to the command nor `memset` changes the chip.
    same_tape :
        (s1 : Flash p.World)
        → tape_from
            (is_bad p (overwritten s1).world)
            (h.cell (overwritten s1).world)
            p.erasesize
            s1.ebcnt
            at
          ≡ tape_from (is_bad p s1.world) (h.cell s1.world) p.erasesize s1.ebcnt at
    same_tape s1 =
        let w = (m.put_back s1.world karg).1 in
        rw
          (
            sets_bad p h m karg works w 0xff ∙ replies_bad p h m karg works s1.world,
            fun_ext (works.sets_cell w 0xff),
            fun_ext (works.replies_cell s1.world),
          )
          refl

    reads :
        (s1 : Flash p.World)
        → IsWritten s1
        → (s2 : Flash p.World) × (ioctl k p m.fetch m.put_back (at91flash_read k) (overwritten s1)
            ≡ returned (val 0) s2)
          × (region (m.peek s2.world) flashdata len ≡ replicate len value)
    reads s1 w =
        let t : Flash p.World = record (overwritten s1) { pos = at } in
        let data_in = region (h.user sought.world) flashdata len in
        let behind = drop len (remaining p h sought) in
        let size : length data_in ≡ len = length-region (h.user sought.world) flashdata len in
        let left : remaining p h t ≡ data_in ++ behind = same_tape s1 ∙ w.stores in
        let (n, s2, _, _, runs, tape_read) =
          read-refines p h flashdata len t (moved p s1 t.world at w.ready on_device) some_bytes
            at_most moderate (omega (arith, ap length left, length-append data_in behind, size))
            works.mapped (works.allocates t.world len).1 in
        (
          record s2 { world = (m.put_back s2.world karg).1 },
          ioctl-read k p m.fetch m.put_back karg (overwritten s1)
              (works.fetched (overwritten s1).world)
              (ap (read p flashdata len) (seek_at (overwritten s1)) ∙ runs)
              (works.replies s2.world),
          peek-region p h m karg works (m.put_back s2.world karg).1
              ∙ region-eq (h.user (m.put_back s2.world karg).1) (h.user s2.world) flashdata
                  flashdata len (works.replies_user s2.world)
              ∙ tape_read.hands
              ∙ ap (take len) left
              ∙ ap (λ n. take n (data_in ++ behind)) (sym size)
              ∙ take-append data_in behind
              ∙ set-user p h m karg works s.world value,
        )

    demo-reads_back :
        (s' : Flash p.World) × (demo k p m (some (pos at, len, value)) (some flashdata) true s
          ≡ next (some (replicate len value, replicate len value)) s')
    unfolding demo set_data shown_data
    demo-reads_back =
        let (s1, w) = writes in
        let (s2, runs, after) = reads s1 w in
        (
          s2,
          rw
              (
                peek-region p h m karg works data_set.world
                    ∙ set-user p h m karg works s.world value,
                w.runs,
                runs,
                after,
              )
              refl,
        )

  -- flash_demo with arguments that pass its checks, an offset on the device other than 0, and at most as
  -- many bytes as a block has and the good blocks have behind the offset, shows the value in all bytes
  -- before it writes and, read back from the chip, again after, wherever bad blocks lie.
  pub flash_demo-reads_back :
      (argc : ℕ) (length_arg value_arg : ℤ) (value : ℕ)
      → arguments argc (pos at) length_arg value_arg ≡ some (pos at, len, value)
      → at ≢ 0
      → len ≤ p.erasesize
      → len ≤ length (tape_from (is_bad p s.world) (h.cell s.world) p.erasesize s.ebcnt at)
      → (s' : Flash p.World) × (flash_demo k p m argc
            (pos at)
            length_arg
            value_arg
            (some flashdata)
            true
            s
          ≡ next (some (replicate len value, replicate len value)) s')
  flash_demo-reads_back argc length_arg value_arg value passes later at_most enough =
      let bounds = arguments-bounds argc (pos at) length_arg value_arg passes in
      let (s', runs) =
        demo-reads_back value later (omega (arith, bounds.1)) at_most (omega (arith, bounds.2))
          enough in
      (s', ap (λ args. demo k p m args (some flashdata) true s) passes ∙ runs)
