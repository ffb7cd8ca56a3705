-- ===== src/Flash/Search/Located.antt =====
-- What the handlers of flash/at91flash.c may rely on after a search.
use at91_sam9x25_drivers.Prelude.{
  ℕ, zero, suc, ◌+◌, ◌-◌, ◌/◌, ◌%◌, ◌≤◌, ◌<◌, ◌≡◌, refl, ◌∙◌, Bool, false, Option, none, some, inl,
  inr, Bool-cases, arith, mul-div_self, div_bounds, mul_mono,
}
use at91_sam9x25_drivers.Kernel.{Ret}
use at91_sam9x25_drivers.Flash.Board.{Board}
use at91_sam9x25_drivers.Flash.State.{Flash, Out, Action}
use at91_sam9x25_drivers.Flash.Search.{find_good, with_fuel}
use at91_sam9x25_drivers.Flash.Search.Ready.{IsReady, is_bad, first_good, length-marks}
use at91_sam9x25_drivers.Flash.Search.Found.{landing, settled, Found, find_good_lem}
use at91_sam9x25_drivers.Flash.Ensures.{Ensures}

module _ (p : Board) where
  -- The same device after a search, with the same memory held.
  pub record Kept (s s' : Flash p.World) : Type 0 where
    pub ready : IsReady p s'
    pub held : s'.held ≡ s.held
    pub world : s'.world ≡ s.world
    pub blocks : s'.ebcnt ≡ s.ebcnt

  -- The search stands at a good block of the device.
  pub record Located (s : Flash p.World) (b : ℕ × ℕ) (s' : Flash p.World) : Type 0 where
    pub kept : Kept s s'
    pub block : b.0 ≡ s'.pos / p.erasesize
    pub offset : b.1 ≡ s'.pos % p.erasesize
    pub inside : b.0 < s'.ebcnt
    pub good : is_bad p s'.world b.0 ≡ false
    pub forward : s.pos ≤ s'.pos

  pub first_good-good : (bad : ℕ → Bool) (n b g : ℕ) → first_good bad n b ≡ some g → bad g ≡ false
  first_good-good bad zero b g e = cc
  first_good-good bad (suc n) b g e = elim (Bool-cases (bad b)) [
    | inl more ↦ first_good-good bad n (b + 1) g (rw more at e)
    | inr good ↦ ground arith
  ]

  pub settled-Kept :
      (s : Flash p.World) (n b at : ℕ)
      → IsReady p s
      → at ≤ p.size + p.erasesize
      → Kept s (settled p s n b at)
  settled-Kept s n b at v le = record {
    ready = record {
      block_pos = v.block_pos;
      fits = v.fits;
      whole = v.whole;
      few = v.few;
      table = length-marks (is_bad p s.world) n b s.bbt ∙ v.table;
      at = le;
      known = v.known;
    };
    held = refl;
    world = refl;
    blocks = refl;
  }

  pub landing-le :
      (s : Flash p.World) (g : ℕ)
      → IsReady p s
      → g < s.ebcnt
      → landing p s.pos g ≤ p.size + p.erasesize
  landing-le s g v lt = ground (arith, v.at, v.whole, mul_mono g s.ebcnt p.erasesize)

  pub landing-block :
      (s : Flash p.World) (g : ℕ) → IsReady p s → g ≡ landing p s.pos g / p.erasesize
  landing-block s g v = ground (arith, mul-div_self g p.erasesize v.block_pos)

  -- The position does not go back.
  pub landing-ge :
      (s : Flash p.World) (g : ℕ)
      → IsReady p s
      → s.pos / p.erasesize ≤ g
      → s.pos ≤ landing p s.pos g
  landing-ge s g v le = ground (
    arith,
    (div_bounds s.pos p.erasesize v.block_pos).1,
    mul_mono (s.pos / p.erasesize + 1) g p.erasesize,
  )

  module _ (P : Ret → Flash p.World → Type 0) (overrun past : Action p.World (ℕ × ℕ))
      (s : Flash p.World) where
    Found-Ensures :
        (n b : ℕ) (o : Option ℕ) (out : Out p.World (ℕ × ℕ))
        → IsReady p s
        → b ≡ s.pos / p.erasesize
        → first_good (is_bad p s.world) n b ≡ o
        → Found p overrun past s n b o out
        → ((s' : Flash p.World) → Kept s s' → Ensures (Located s) P (overrun s'))
        → ((s' : Flash p.World) → Kept s s' → Ensures (Located s) P (past s'))
        → Ensures (Located s) P out
    Found-Ensures n b (some g) out v at e (le, lt, eq) over beyond = rw eq record {
      kept = settled-Kept s n b (landing p s.pos g) v (landing-le s g v lt);
      block = landing-block s g v;
      offset = refl;
      inside = lt;
      good = first_good-good (is_bad p s.world) n b g e;
      forward = landing-ge s g v (omega (arith, at));
    }
    Found-Ensures zero b none out v at e f over beyond =
        rw f (over s (settled-Kept s zero b s.pos v v.at))
    Found-Ensures (suc n) b none out v at e f over beyond =
        rw f (beyond _ (settled-Kept s (suc n) b p.size v (omega arith)))

    -- A search guarantees what its two exits guarantee, and else a good block.
    pub search-Ensures :
        IsReady p s
        → ((s' : Flash p.World) → Kept s s' → Ensures (Located s) P (overrun s'))
        → ((s' : Flash p.World) → Kept s s' → Ensures (Located s) P (past s'))
        → Ensures (Located s) P (with_fuel p (λ n. find_good p n overrun past) s)
    search-Ensures v over beyond =
        let b = s.pos / p.erasesize in
        let n = s.ebcnt - b in
        Found-Ensures n b (first_good (is_bad p s.world) n b) _ v refl refl
          (find_good_lem p n (s.ebcnt + 1) b overrun past s v refl refl (omega arith)) over beyond
