-- ===== src/Programs/Memory/Serves.antt =====
-- A program whose memory works, and which keeps the arguments of its commands apart from its data.
use at91_sam9x25_drivers.Prelude.{
  ℕ, zero, suc, ◌+◌, ◌-◌, ◌*◌, ◌≤◌, ◌<◌, ◌≡◌, refl, sym, ap, ap₂, ◌∙◌, false, some, List, ◌∷◌,
  replicate, region, region-eq, arith, length-replicate,
}
use mathlib.Core.Path.{fun_ext}
use at91_sam9x25_drivers.Kernel.{is_nonzero}
use at91_sam9x25_drivers.Flash.Board.{Board}
use at91_sam9x25_drivers.Flash.Chip.{IsHealthy, patched}
use at91_sam9x25_drivers.Flash.Chip.Patch.{patched_in, get_or-replicate}
use at91_sam9x25_drivers.Flash.Search.Ready.{is_bad}
use at91_sam9x25_drivers.Flash.Ioctl.{FlashData}
use at91_sam9x25_drivers.Programs.Memory.{Memory}

-- A program whose memory is the user's memory of the board, with the argument `karg` of its commands
-- outside the data, on a kernel that always has memory.
pub record Serves (p : Board) (h : IsHealthy p) (m : Memory p) (karg : FlashData) : Type 0 where
  pub peeks : (w : p.World) (x : ℕ) → m.peek w x ≡ h.user w x
  pub mapped : (a n : ℕ) → karg.pbuf ≤ a → a + n ≤ karg.pbuf + karg.len → h.mapped a n
  pub fetched : (w : p.World) → m.fetch w ≡ some karg
  pub replies : (w : p.World) → (m.put_back w karg).0 ≡ false
  pub replies_user :
      (w : p.World) (i : ℕ)
      → i < karg.len
      → h.user (m.put_back w karg).1 (karg.pbuf + i) ≡ h.user w (karg.pbuf + i)
  pub replies_cell : (w : p.World) (x : ℕ) → h.cell (m.put_back w karg).1 x ≡ h.cell w x
  pub replies_isbad :
      (w : p.World) (c : ℕ) → p.block_isbad (m.put_back w karg).1 c ≡ p.block_isbad w c
  pub sets_user :
      (w : p.World) (value x : ℕ)
      → h.user (m.memset w karg.pbuf value karg.len) x
        ≡ patched (h.user w) karg.pbuf (replicate karg.len value) x
  pub sets_cell :
      (w : p.World) (value x : ℕ) → h.cell (m.memset w karg.pbuf value karg.len) x ≡ h.cell w x
  pub sets_isbad :
      (w : p.World) (value c : ℕ)
      → p.block_isbad (m.memset w karg.pbuf value karg.len) c ≡ p.block_isbad w c
  pub allocates : (w : p.World) (n : ℕ) → (b : List ℕ) × (p.kmalloc w n ≡ some b)

pub region-replicate :
    (f : ℕ → ℕ) (a n v : ℕ) → ((i : ℕ) → i < n → f (a + i) ≡ v) → region f a n ≡ replicate n v
region-replicate f a zero v h = refl
region-replicate f a (suc n) v h =
    let here : a + 0 ≡ a = omega arith in
    ap₂ ◌∷◌ (ap f (sym here) ∙ h 0 (omega arith)) (
      region-replicate f (a + 1) n v (λ i lt.
        let shift : a + 1 + i ≡ a + suc i = omega arith in ap f shift ∙ h (suc i) (omega arith)))

module _ (p : Board) (h : IsHealthy p) (m : Memory p) (karg : FlashData)
    (works : Serves p h m karg) where
  pub sets_bad :
      (w : p.World) (value : ℕ) → is_bad p (m.memset w karg.pbuf value karg.len) ≡ is_bad p w
  sets_bad w value = fun_ext λ b. ap is_nonzero (works.sets_isbad w value (b * p.erasesize))

  pub replies_bad : (w : p.World) → is_bad p (m.put_back w karg).1 ≡ is_bad p w
  replies_bad w = fun_ext λ b. ap is_nonzero (works.replies_isbad w (b * p.erasesize))

  -- The bytes in the program's memory after `memset`.
  pub set-byte :
      (w : p.World) (value i : ℕ)
      → i < karg.len
      → h.user (m.memset w karg.pbuf value karg.len) (karg.pbuf + i) ≡ value
  set-byte w value i lt =
      works.sets_user w value (karg.pbuf + i)
      ∙ patched_in (h.user w) karg.pbuf (replicate karg.len value) (karg.pbuf + i) (omega arith)
          (omega (arith, length-replicate {A = ℕ} karg.len value))
      ∙ get_or-replicate karg.len (karg.pbuf + i - karg.pbuf) value (omega arith)

  pub set-user :
      (w : p.World) (value : ℕ)
      → region (h.user (m.memset w karg.pbuf value karg.len)) karg.pbuf karg.len
        ≡ replicate karg.len value
  set-user w value =
      region-replicate (h.user (m.memset w karg.pbuf value karg.len)) karg.pbuf karg.len value
        (set-byte w value)

  pub peek-region :
      (w : p.World) → region (m.peek w) karg.pbuf karg.len ≡ region (h.user w) karg.pbuf karg.len
  peek-region w =
      region-eq (m.peek w) (h.user w) karg.pbuf karg.pbuf karg.len λ i _. works.peeks w _
