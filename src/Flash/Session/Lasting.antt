-- ===== src/Flash/Session/Lasting.antt =====
-- What every session on the device of flash/at91flash.c keeps, and that its calls return.
use at91_sam9x25_drivers.Prelude.{
  ℕ, ◌^◌, ◌<◌, ◌≡◌, refl, subst, sym, ◌∙◌, Bool, Option, none, some, inl, inr, Bool-cases, ◌==◌,
  ==_iff, arith,
}
use at91_sam9x25_drivers.Prelude.Int.{ℤ, pos, negsuc}
use at91_sam9x25_drivers.Kernel.{Ret, Ioctls}
use at91_sam9x25_drivers.Flash.Board.{Board, IsSized}
use at91_sam9x25_drivers.Flash.State.{Flash, Out, next, Action, ◌>>◌, call}
use at91_sam9x25_drivers.Flash.Ensures.{
  Ensures, Returns, bind-Ensures, call-Ensures, onwards-Ensures, onwards-next,
}
use at91_sam9x25_drivers.Flash.Search.Ready.{IsReady}
use at91_sam9x25_drivers.Flash.Seek.{Whence, lseek, seek_set}
use at91_sam9x25_drivers.Flash.Read.{read as at91flash_read}
use at91_sam9x25_drivers.Flash.Read.Safe.{IsDone, read-IsDone}
use at91_sam9x25_drivers.Flash.Write.{write as at91flash_write}
use at91_sam9x25_drivers.Flash.Write.Safe.{write-IsDone}
use at91_sam9x25_drivers.Flash.Ioctl
use at91_sam9x25_drivers.Flash.Ioctl.{FlashData, ioctl, command, reply}
use at91_sam9x25_drivers.Flash.Ioctl.Laws.{seeked, and_then-lseek}
use at91_sam9x25_drivers.Flash.Session.{
  Call, llseek, read, write, unlocked_ioctl, handle, Fits, IsAllowed, calls, changes, Reach, here,
  after,
}

module _ (k : Ioctls) (p : Board) (sized : IsSized p) (fetch : p.World → Option FlashData)
    (put_back : p.World → FlashData → Bool × p.World) where
  -- A seek leaves a well-formed driver well formed.
  seeked-IsReady : (offset : ℤ) (s : Flash p.World) → IsReady p s → IsReady p (seeked p offset s)
  seeked-IsReady (pos n) s v = ground (arith, v)
  seeked-IsReady (negsuc n) s v = v

  held-seeked : (offset : ℤ) (s : Flash p.World) → (seeked p offset s).held ≡ s.held
  held-seeked (pos n) s = ground arith
  held-seeked (negsuc n) s = refl

  llseek-IsDone :
      (offset : ℤ) (orig : Whence) (s : Flash p.World)
      → IsReady p s
      → Ensures (IsDone p sized s.held) (λ _ _. ⊥) (lseek p offset orig s)
  unfolding lseek
  llseek-IsDone (pos n) Whence.seek_set s v = ground (arith, v)
  llseek-IsDone offset orig s v = ground (arith, v)

  reply-Returns :
      (h : ℕ) (karg : FlashData) (s : Flash p.World) (r : Ret)
      → IsDone p sized h r s
      → Returns (IsDone p sized h) (reply k p fetch put_back karg s)
  unfolding reply
  reply-Returns h karg s r (v, e) = ground (arith, v)

  -- A seek, a handler whose result is dropped, and the reply.
  transfer-Returns :
      (h : ℕ) (m : Action p.World (Unit {0})) (karg : FlashData) (s : Flash p.World)
      → Returns (IsDone p sized h) (m (seeked p karg.offset s))
      → Returns
          (IsDone p sized h)
          ((lseek p karg.offset seek_set >> (call m >> reply k p fetch put_back karg)) s)
  transfer-Returns h m karg s done =
      let s1 = seeked p karg.offset s in
      subst (Returns (IsDone p sized h))
        (sym (and_then-lseek p karg.offset s (call m >> reply k p fetch put_back karg)))
        (bind-Ensures (IsDone p sized h) _ _ (call m s1) _
          (onwards-Ensures (IsDone p sized h) _ (call m s1)
            (call-Ensures (IsDone p sized h) m s1 done))
          (λ r s2 q. reply-Returns h karg s2 r q))

  command-Returns :
      (nr : ℕ) (o : Option FlashData) (s : Flash p.World)
      → IsReady p s
      → ((karg : FlashData)
          → o ≡ some karg
          → (karg.len < 2 ^ 32)
            × (nr ≡ k.ioc_nr (Ioctl.at91flash_write k)
                → Fits k p fetch put_back (seeked p karg.offset s).pos karg.len))
      → Returns (IsDone p sized s.held) (command k p fetch put_back nr o s)
  unfolding command
  command-Returns nr none s v ok = (v, refl)
  command-Returns nr (some karg) s v ok =
      let s1 = seeked p karg.offset s in
      let v1 = seeked-IsReady karg.offset s v in
      let (small, fits) = ok karg refl in
      elim (Bool-cases (nr == k.ioc_nr (Ioctl.at91flash_read k))) [
        | inl e ↦ rw e (
            kept _ (
              transfer-Returns s1.held (at91flash_read p karg.pbuf karg.len) karg s
                (read-IsDone p sized karg.pbuf karg.len s1 v1 small)))
        | inr ne ↦ elim (Bool-cases (nr == k.ioc_nr (Ioctl.at91flash_write k))) [
          | inl e ↦
              rw (ne, e)
                (kept _ (
                  transfer-Returns s1.held (at91flash_write p karg.pbuf karg.len) karg s (
                    write-IsDone p sized karg.pbuf karg.len s1 v1 small
                      (fits ((==_iff nr (k.ioc_nr (Ioctl.at91flash_write k))).0 e)))))
          | inr ne' ↦ rw (ne, ne') (v, refl)
        ]
      ]
    where
      kept :
          (o : Out p.World (Unit {0}))
          → Returns (IsDone p sized (seeked p karg.offset s).held) o
          → Returns (IsDone p sized s.held) o
      kept o = subst (λ h. Returns (IsDone p sized h) o) (held-seeked karg.offset s)

  handle-Ensures :
      (c : Call) (s : Flash p.World)
      → IsReady p s
      → IsAllowed k p fetch put_back c s
      → Ensures (IsDone p sized s.held) (λ _ _. ⊥) (handle k p fetch put_back c s)
  unfolding handle ioctl
  handle-Ensures (llseek offset orig) s v ok = llseek-IsDone offset orig s v
  handle-Ensures (read buf count) s v ok =
      call-Ensures (IsDone p sized s.held) (at91flash_read p buf count) s
        (read-IsDone p sized buf count s v ok)
  handle-Ensures (write buf count) s v ok =
      call-Ensures (IsDone p sized s.held) (at91flash_write p buf count) s
        (write-IsDone p sized buf count s v ok.0 ok.1)
  handle-Ensures (unlocked_ioctl cmd) s v ok =
      call-Ensures (IsDone p sized s.held) (ioctl k p fetch put_back cmd) s
        (command-Returns (k.ioc_nr cmd) (fetch s.world) s v ok)

  next-IsDone :
      {h : ℕ} (o : Out p.World Ret) (r : Ret) (s' : Flash p.World)
      → o ≡ next r s'
      → Ensures (IsDone p sized h) (λ _ _. ⊥) o
      → IsDone p sized h r s'
  next-IsDone {h} o r s' e q = subst (Ensures (IsDone p sized h) (λ _ _. ⊥)) e q

  world-IsReady :
      (s : Flash p.World) (w : p.World) → IsReady p s → IsReady p (record s { world = w })
  world-IsReady s w v = record {
    block_pos = v.block_pos;
    fits = v.fits;
    whole = v.whole;
    few = v.few;
    table = v.table;
    at = v.at;
    known = v.known;
  }

  -- From a well-formed driver that holds no memory, every sequence of calls that are allowed, between
  -- which the world changes in any way, leads to a well-formed driver that holds none.
  pub Reach-lasts :
      {s t : Flash p.World}
      → IsReady p s
      → s.held ≡ 0
      → Reach k p fetch put_back s t
      → IsReady p t × (t.held ≡ 0)
  Reach-lasts v e here = (v, e)
  Reach-lasts v e (after {t} {u} run (calls c r ok runs)) =
      let (v', e') = Reach-lasts v e run in
      let (v2, e2) =
        next-IsDone (handle k p fetch put_back c t) r u runs (handle-Ensures c t v' ok) in
      (v2, e2 ∙ e')
  Reach-lasts v e (after {t} {u} run (changes w same)) =
      let (v', e') = Reach-lasts v e run in
      subst (λ s. IsReady p s × (s.held ≡ 0)) same (world-IsReady t w v', e')

  -- Wherever such a sequence has led, from a well-formed driver that holds no memory, the next call that
  -- is allowed returns.
  pub Reach-returns :
      {s t : Flash p.World} (c : Call)
      → IsReady p s
      → s.held ≡ 0
      → Reach k p fetch put_back s t
      → IsAllowed k p fetch put_back c t
      → (r : Ret) × (u : Flash p.World) × (handle k p fetch put_back c t ≡ next r u)
  Reach-returns {s} {t} c v e run ok =
      let (v', _) = Reach-lasts v e run in
      let (r, u, runs, _) =
        onwards-next (IsDone p sized t.held) (handle k p fetch put_back c t)
          (handle-Ensures c t v' ok) in
      (r, u, runs)
