-- ===== src/Programs/NandTest/ReadsBack.antt =====
-- What NAND_FLASH_test of hwtest/hwtest.c shows on a chip that works.
use at91_sam9x25_drivers.Prelude.{
  ℕ, ◌+◌, ◌*◌, ◌/◌, ◌%◌, ◌≤◌, ◌<◌, ◌≡◌, refl, ap, ◌∙◌, true, false, some, List, length, replicate,
  region, overlay, arith, length-set, mul_mono, le→leb,
}
use at91_sam9x25_drivers.Prelude.Int.{pos}
use at91_sam9x25_drivers.Kernel.{val, Ioctls, is_nonzero}
use at91_sam9x25_drivers.Flash.Board.{Board, IsSized}
use at91_sam9x25_drivers.Flash.Chip.{IsHealthy}
use at91_sam9x25_drivers.Flash.Chip.Patch.{patched-region}
use at91_sam9x25_drivers.Flash.State.{Flash, next, returned}
use at91_sam9x25_drivers.Flash.Search.Ready.{IsReady, is_bad}
use at91_sam9x25_drivers.Flash.Read.{read}
use at91_sam9x25_drivers.Flash.Read.Contents.{Asks, read-delivers}
use at91_sam9x25_drivers.Flash.Write.{write}
use at91_sam9x25_drivers.Flash.Write.InBlock.{InBlock, written, block_inside}
use at91_sam9x25_drivers.Flash.Write.First.{first_run, first-full, first-cells, first-front}
use at91_sam9x25_drivers.Flash.Write.Block.{rewritten-isbad}
use at91_sam9x25_drivers.Flash.Ioctl.{ioctl, at91flash_read, at91flash_write}
use at91_sam9x25_drivers.Flash.Ioctl.Laws.{seeked, ioctl-read, ioctl-write}
use at91_sam9x25_drivers.Programs.NandTest.{len, request, transfer, nand_flash_test}
use at91_sam9x25_drivers.Programs.Memory.{Memory, set_data, shown_data}
use at91_sam9x25_drivers.Programs.Memory.Serves.{
  Serves, set-byte, set-user, peek-region, region-replicate,
}

module _ (k : Ioctls) (p : Board) (sized : IsSized p) (h : IsHealthy p) (m : Memory p)
    (flashdata : ℕ) (works : Serves p h m (request flashdata)) (s : Flash p.World) (v : IsReady p s)
    (good : is_bad p s.world 0 ≡ false) (room : len ≤ p.erasesize) (blocks : 0 < s.ebcnt) where
  -- The driver when the data have been set, and when the write command has sought to the start.
  abbrev zeroed : Flash p.World
  zeroed = record s { world = m.memset s.world flashdata 0 len }

  abbrev at_start : Flash p.World
  at_start = record zeroed { pos = 0 }

  start_block : 0 / p.erasesize ≡ 0
  start_block = grind arith

  start_offset : 0 % p.erasesize ≡ 0
  start_offset = grind arith

  writes : InBlock p sized h at_start flashdata len
  writes = record {
    ready = record {
      block_pos = v.block_pos;
      fits = v.fits;
      whole = v.whole;
      few = v.few;
      table = v.table;
      at = omega arith;
      known = v.known;
    };
    on_device = omega (arith, mul_mono 1 s.ebcnt p.erasesize blocks, v.whole, v.block_pos);
    good = rw start_block (ap is_nonzero (works.sets_isbad s.world 0 (0 * p.erasesize)) ∙ good);
    some_bytes = omega arith;
    within = omega (arith, start_offset);
    readable = works.mapped flashdata len (omega arith) (omega arith);
  }

  -- What the memory for the block's buffer held, and the block as it is programmed.
  abbrev kbuf : List ℕ
  kbuf = (works.allocates zeroed.world p.erasesize).0

  kbuf_size : length kbuf ≡ p.erasesize
  kbuf_size =
      sized.kmalloc_size zeroed.world p.erasesize (works.allocates zeroed.world p.erasesize).1

  abbrev programmed : Flash p.World
  programmed = written writes (overlay kbuf 0 (region (h.user at_start.world) flashdata len))

  -- The driver after the write command, and after `memset` and the seek of the read command.
  abbrev stored : Flash p.World
  stored = record programmed { world = (m.put_back programmed.world (request flashdata)).1 }

  abbrev rewound : Flash p.World
  rewound = record stored { world = m.memset stored.world flashdata 255 len; pos = 0 }

  seek_start : (t : Flash p.World) → seeked p (pos 0) t ≡ record t { pos = 0 }
  seek_start t = rw (le→leb 0 p.size (omega arith)) refl

  write_runs : ioctl k p m.fetch m.put_back (at91flash_write k) zeroed ≡ returned (val 0) stored
  write_runs =
      ioctl-write k p m.fetch m.put_back (request flashdata) zeroed (works.fetched zeroed.world)
        (ap (write p flashdata len) (seek_start zeroed)
          ∙ first_run p sized h flashdata len at_start writes kbuf
              (works.allocates zeroed.world p.erasesize).1 refl)
        (works.replies programmed.world)

  reads : Asks p h rewound flashdata len
  reads = record {
    ready = record {
      block_pos = v.block_pos;
      fits = v.fits;
      whole = v.whole;
      few = v.few;
      table = length-set s.bbt (0 / p.erasesize) 0 ∙ v.table;
      at = omega arith;
      known = v.known;
    };
    good =
        ap is_nonzero (
          works.sets_isbad stored.world 255 (0 / p.erasesize * p.erasesize)
          ∙ works.replies_isbad programmed.world (0 / p.erasesize * p.erasesize)
          ∙ rewritten-isbad p h at_start.world (0 / p.erasesize)
              (overlay kbuf 0 (region (h.user at_start.world) flashdata len)) (block_inside writes)
              (first-full p sized h flashdata len at_start writes kbuf kbuf_size)
              (0 / p.erasesize * p.erasesize))
        ∙ writes.good;
    some_bytes = omega arith;
    moderate = omega arith;
    inside = omega (arith, mul_mono 1 s.ebcnt p.erasesize blocks, v.whole);
  }

  rewound-cell : (x : ℕ) → x < len → h.cell rewound.world x ≡ 0
  rewound-cell x lt =
      works.sets_cell stored.world 255 x
      ∙ works.replies_cell programmed.world x
      ∙ first-cells p sized h flashdata len at_start writes kbuf x kbuf_size refl
      ∙ first-front p sized h flashdata len at_start writes kbuf x kbuf_size lt
      ∙ set-byte p h m (request flashdata) works s.world 0 x lt

  -- The driver before the read command.
  abbrev filled : Flash p.World
  filled = record stored { world = m.memset stored.world flashdata 255 len }

  -- What the read command leaves.
  record IsReadBack (s' : Flash p.World) : Type 0 where
    runs : ioctl k p m.fetch m.put_back (at91flash_read k) filled ≡ returned (val 0) s'
    data_back : (i : ℕ) → i < len → m.peek s'.world (flashdata + i) ≡ 0
    on_chip : (x : ℕ) → x < len → h.cell s'.world x ≡ 0

  read_back : (s' : Flash p.World) × IsReadBack s'
  read_back =
      let (s3, reads_3, at, user_3, same_3, _) =
        read-delivers p h flashdata len rewound reads (works.allocates rewound.world len).1
          (omega (arith, start_offset)) (works.mapped flashdata len (omega arith) (omega arith)) in
      (
        record s3 { world = (m.put_back s3.world (request flashdata)).1 },
        record {
          runs =
              ioctl-read k p m.fetch m.put_back (request flashdata) filled
                (works.fetched filled.world)
                (ap (read p flashdata len) (seek_start filled) ∙ reads_3) (works.replies s3.world);
          data_back = λ i lt.
              works.peeks _ (flashdata + i)
              ∙ works.replies_user s3.world i lt
              ∙ user_3 (flashdata + i)
              ∙ patched-region (h.user rewound.world) (h.cell rewound.world) flashdata 0 len i lt
              ∙ rewound-cell (0 + i) (omega arith);
          on_chip = λ x lt.
              works.replies_cell s3.world x ∙ ap (λ f. f x) same_3.cells ∙ rewound-cell x lt;
        },
      )

  -- On a chip that works, whose first block is good and holds 100 bytes at least, the test of the
  -- flash shows 100 zeros before and, read back from the chip, 100 zeros after; the chip has them.
  pub nand_flash_test-reads_back :
      (s' : Flash p.World) × (nand_flash_test k p m (some flashdata) true s
        ≡ next (some (replicate len 0, replicate len 0)) s')
      × ((x : ℕ) → x < len → h.cell s'.world x ≡ 0)
  unfolding nand_flash_test transfer set_data shown_data
  nand_flash_test-reads_back =
      let (s', r) = read_back in
      (
        s',
        rw
            (
              peek-region p h m (request flashdata) works zeroed.world
                  ∙ set-user p h m (request flashdata) works s.world 0,
              write_runs,
              r.runs,
              region-replicate (m.peek s'.world) flashdata len 0 r.data_back,
            )
            refl,
        r.on_chip,
      )
