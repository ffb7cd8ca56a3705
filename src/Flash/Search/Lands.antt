-- ===== src/Flash/Search/Lands.antt =====
-- Where the search loops of flash/at91flash.c land, as an equation, and that a search from there
-- changes nothing more.
use at91_sam9x25_drivers.Prelude.{
  ℕ, zero, suc, ◌+◌, ◌-◌, ◌/◌, ◌%◌, ◌≤◌, ◌<◌, ◌≡◌, refl, sym, ap, subst, ◌∙◌, Bool, false, Option,
  some, List, [], ◌∷◌, set, Bool-cases, inl, inr, arith,
}
use at91_sam9x25_drivers.Flash.Board.{Board}
use at91_sam9x25_drivers.Flash.State.{Flash, next, hang, Action}
use at91_sam9x25_drivers.Flash.Search.{find_good, with_fuel}
use at91_sam9x25_drivers.Flash.Search.Ready.{IsReady, is_bad, first_good, marks}
use at91_sam9x25_drivers.Flash.Search.Found.{landing, settled, Found, find_good_lem, find_here}
use at91_sam9x25_drivers.Flash.Search.Located.{
  first_good-good, settled-Kept, landing-le, landing-block, landing-ge,
}

set-set_self : (xs : List ℕ) (i v : ℕ) → set (set xs i v) i v ≡ set xs i v
set-set_self [] i v = refl
set-set_self (x ∷ xs) zero v = refl
set-set_self (x ∷ xs) (suc i) v = ap (λ l. x ∷ l) (set-set_self xs i v)

-- The block that is found is marked as good already.
marks-set :
    (bad : ℕ → Bool) (n b g : ℕ) (bbt : List ℕ)
    → first_good bad n b ≡ some g
    → set (marks bad n b bbt) g 0 ≡ marks bad n b bbt
marks-set bad zero b g bbt e = cc
marks-set bad (suc n) b g bbt e = elim (Bool-cases (bad b)) [
  | inl y ↦ rw y (marks-set bad n (b + 1) g (set bbt b 1) (rw y at e))
  | inr n' ↦ let same : b ≡ g = ground arith in rw (n', ← same) (set-set_self bbt b 0)
]

module _ (p : Board) where
  -- The first good block from that of the position on.
  abbrev pub lands : Flash p.World → Option ℕ
  lands s = first_good (is_bad p s.world) (s.ebcnt - s.pos / p.erasesize) (s.pos / p.erasesize)

  -- The driver once block `g` has been found.
  abbrev pub landed : Flash p.World → ℕ → Flash p.World
  landed s g = settled p s (s.ebcnt - s.pos / p.erasesize) (s.pos / p.erasesize) (landing p s.pos g)

  module _ (s : Flash p.World) (g : ℕ) (v : IsReady p s) (e : lands s ≡ some g)
      (overrun past : Action p.World (ℕ × ℕ)) where
    found :
        Found p overrun past s
          (s.ebcnt - s.pos / p.erasesize)
          (s.pos / p.erasesize)
          (some g)
          (with_fuel p (λ n. find_good p n overrun past) s)
    found =
        subst
          (λ o.
            Found p overrun past s (s.ebcnt - s.pos / p.erasesize) (s.pos / p.erasesize) o
              (with_fuel p (λ n. find_good p n overrun past) s))
          e
          (find_good_lem p (s.ebcnt - s.pos / p.erasesize) (s.ebcnt + 1) (s.pos / p.erasesize)
            overrun past s v refl refl (omega arith))

    pub search-landed :
        with_fuel p (λ n. find_good p n overrun past) s
        ≡ next (g, landing p s.pos g % p.erasesize) (landed s g)
    search-landed = found.2

  module _ (s : Flash p.World) (g : ℕ) (v : IsReady p s) (e : lands s ≡ some g) where
    pub lands_bounds : (s.pos / p.erasesize ≤ g) × (g < s.ebcnt)
    lands_bounds = let f = found s g v e (λ _. hang) (λ _. hang) in (f.0, f.1)

    pub landed-IsReady : IsReady p (landed s g)
    landed-IsReady =
        (settled-Kept p s (s.ebcnt - s.pos / p.erasesize) (s.pos / p.erasesize) (landing p s.pos g)
          v (landing-le p s g v lands_bounds.1)).ready

    pub landed-good : is_bad p s.world g ≡ false
    landed-good =
        first_good-good p (is_bad p s.world) (s.ebcnt - s.pos / p.erasesize) (s.pos / p.erasesize) g
          e

    pub landed-block : (landed s g).pos / p.erasesize ≡ g
    landed-block = sym (landing-block p s g v)

    pub landed-forward : s.pos ≤ (landed s g).pos
    landed-forward = landing-ge p s g v lands_bounds.0

    -- A search from there ends there, and leaves the driver as it is.
    pub search-rests :
        (overrun past : Action p.World (ℕ × ℕ))
        → with_fuel p (λ n. find_good p n overrun past) (landed s g)
          ≡ with_fuel p (λ n. find_good p n overrun past) s
    search-rests overrun past =
        let at = landed s g in
        find_here p overrun past at landed-IsReady (rw landed-block lands_bounds.1)
          (rw landed-block landed-good)
        ∙ ap (λ b. next (b, at.pos % p.erasesize) (record at { bbt = set at.bbt b 0 })) landed-block
        ∙ ap (λ t. next (g, at.pos % p.erasesize) (record at { bbt = t }))
            (marks-set (is_bad p s.world) (s.ebcnt - s.pos / p.erasesize) (s.pos / p.erasesize) g
              s.bbt e)
        ∙ sym (search-landed s g v e overrun past)
