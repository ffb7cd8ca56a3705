-- ===== src/Flash/Ioctl/Laws.antt =====
-- What `at91flash_ioctl` makes of the results of the calls below it.
use at91_sam9x25_drivers.Prelude.{
  ==_self, ℕ, ◌≡◌, refl, ap, ◌∙◌, Bool, false, Option, some, if◌then◌else◌, arith, leb, Bool-cases,
  inl, inr,
}
use at91_sam9x25_drivers.Prelude.Int.{ℤ, pos, negsuc}
use at91_sam9x25_drivers.Kernel.{Ret, val, Ioctls}
use at91_sam9x25_drivers.Flash.Board.{Board}
use at91_sam9x25_drivers.Flash.State.{Flash, returned, Action, and_then, call, caught, ◌>>◌}
use at91_sam9x25_drivers.Flash.Seek.{lseek, seek_set}
use at91_sam9x25_drivers.Flash.Read.{read}
use at91_sam9x25_drivers.Flash.Write.{write}
use at91_sam9x25_drivers.Flash.Ioctl.{
  FlashData, ioctl, command, reply, at91flash_read, at91flash_write,
}

module _ (p : Board) where
  -- The driver after a seek from the start of the device: one that fails leaves it alone.
  abbrev pub seeked : ℤ → Flash p.World → Flash p.World
  seeked (pos n) s = if leb n p.size then record s { pos = n } else s
  seeked (negsuc _) s = s

  pub and_then-lseek :
      {A : Type 0} (offset : ℤ) (s : Flash p.World) (k : Action p.World A)
      → and_then (lseek p offset seek_set s) (λ _. k) ≡ k (seeked offset s)
  unfolding lseek
  and_then-lseek (pos n) s k = elim (Bool-cases (leb n p.size)) [
    | inl e ↦ rw e refl
    | inr e ↦ rw e refl
  ]
  and_then-lseek (negsuc n) s k = refl

module _ (p : Board) (fetch : p.World → Option FlashData)
    (put_back : p.World → FlashData → Bool × p.World) (k : Ioctls) where
  -- What follows the seek drops the result of the handler `m`.
  then_reply :
      (m : Action p.World (Unit {0})) (karg : FlashData) (s : Flash p.World) {r : Ret}
      {s' : Flash p.World}
      → m s ≡ returned r s'
      → (put_back s'.world karg).0 ≡ false
      → (call m >> reply k p fetch put_back karg) s
        ≡ returned (val 0) (record s' { world = (put_back s'.world karg).1 })
  unfolding reply
  then_reply m karg s e back =
      ap (λ o. and_then (caught o) (λ _. reply k p fetch put_back karg)) e ∙ rw back refl

module _ (k : Ioctls) (p : Board) (fetch : p.World → Option FlashData)
    (put_back : p.World → FlashData → Bool × p.World) (karg : FlashData) (s : Flash p.World)
    {r : Ret} {s' : Flash p.World} where
  pub ioctl-read :
      fetch s.world ≡ some karg
      → read p karg.pbuf karg.len (seeked p karg.offset s) ≡ returned r s'
      → (put_back s'.world karg).0 ≡ false
      → ioctl k p fetch put_back (at91flash_read k) s
        ≡ returned (val 0) (record s' { world = (put_back s'.world karg).1 })
  unfolding ioctl command
  ioctl-read got reads back =
      rw (got, ==_self (k.ioc_nr (at91flash_read k)))
        (and_then-lseek p karg.offset s _
          ∙ then_reply p fetch put_back k (read p karg.pbuf karg.len) karg (seeked p karg.offset s)
              reads back)

  pub ioctl-write :
      fetch s.world ≡ some karg
      → write p karg.pbuf karg.len (seeked p karg.offset s) ≡ returned r s'
      → (put_back s'.world karg).0 ≡ false
      → ioctl k p fetch put_back (at91flash_write k) s
        ≡ returned (val 0) (record s' { world = (put_back s'.world karg).1 })
  unfolding ioctl command
  ioctl-write got writes back =
      rw (got, k.ioc_nr-iowr b't' 2 12 (omega arith), k.ioc_nr-iowr b't' 1 12 (omega arith))
        (and_then-lseek p karg.offset s _
          ∙ then_reply p fetch put_back k (write p karg.pbuf karg.len) karg (seeked p karg.offset s)
              writes back)

-- The two commands that move data, each with its number and its handler.
pub data Transfer : Type 0 where
  reading writing : Transfer

abbrev pub code_of : Ioctls → Transfer → ℕ
code_of k reading = at91flash_read k
code_of k writing = at91flash_write k

abbrev pub handler_of : (p : Board) → Transfer → FlashData → Action p.World (Unit {0})
handler_of p reading karg = read p karg.pbuf karg.len
handler_of p writing karg = write p karg.pbuf karg.len

-- AT91FLASH_READ and AT91FLASH_WRITE, with an argument that can be copied in and out, are a seek and a
-- read or a write. The results of both are dropped: after a seek that failed the data are moved at
-- the old position, and whatever the read or write returns, an error too, the command returns 0.
pub ioctl-transfers :
    (k : Ioctls) (p : Board) (fetch : p.World → Option FlashData)
    (put_back : p.World → FlashData → Bool × p.World) (t : Transfer) (karg : FlashData)
    (s : Flash p.World) {r : Ret} {s' : Flash p.World}
    → fetch s.world ≡ some karg
    → handler_of p t karg (seeked p karg.offset s) ≡ returned r s'
    → (put_back s'.world karg).0 ≡ false
    → ioctl k p fetch put_back (code_of k t) s
      ≡ returned (val 0) (record s' { world = (put_back s'.world karg).1 })
ioctl-transfers k p fetch put_back reading karg s got runs back =
    ioctl-read k p fetch put_back karg s got runs back
ioctl-transfers k p fetch put_back writing karg s got runs back =
    ioctl-write k p fetch put_back karg s got runs back
