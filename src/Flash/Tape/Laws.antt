-- ===== src/Flash/Tape/Laws.antt =====
-- The bytes of the good blocks, and the first of these blocks.
use at91_sam9x25_drivers.Prelude.{
  ℕ, zero, suc, ◌+◌, ◌-◌, ◌*◌, ◌/◌, ◌%◌, ◌≤◌, ◌<◌, ◌≡◌, refl, ◌∙◌, ap, ap₂, Bool, true, false, none,
  some, [], ◌++◌, length, region, length-region, length-append, if◌then◌else◌, if_same, ◌==◌,
  Bool-cases, inl, inr, arith, mul-div_self, mul_mono, region-eq, mul-mod_self,
}
use at91_sam9x25_drivers.Flash.Search.Ready.{first_good}
use at91_sam9x25_drivers.Flash.Tape.{tape, tape_from}

module _ (bad : ℕ → Bool) (cell : ℕ → ℕ) (e : ℕ) where
  pub length-tape : (n b off : ℕ) → length (tape bad cell e n b off) ≤ n * e
  length-tape zero b off = omega arith
  length-tape (suc n) b off = elim (Bool-cases (bad b)) [
    | inl y ↦ rw y (grind (arith, length-tape n (b + 1) 0))
    | inr n' ↦
        rw
          (
            n',
            length-append (region cell (b * e + off) (e - off)) (tape bad cell e n (b + 1) 0),
            length-region cell (b * e + off) (e - off),
          )
          (grind (arith, length-tape n (b + 1) 0))
  ]

  -- Without a good block there is nothing to read.
  pub tape-none : (n b off : ℕ) → first_good bad n b ≡ none → tape bad cell e n b off ≡ []
  tape-none zero b off none_good = refl
  tape-none (suc n) b off none_good = elim (Bool-cases (bad b)) [
    | inl y ↦ rw y (tape-none n (b + 1) 0 (rw y at none_good))
    | inr n' ↦ absurd (some≢none (rw n' at none_good))
  ]
    where
      some≢none : some b ≡ none → ⊥
      some≢none e = cc

  -- The bytes of the first good block come first, then those behind it.
  pub tape-some :
      (n b off g : ℕ)
      → first_good bad n b ≡ some g
      → (b ≤ g)
        × (g < b + n)
        × (bad g ≡ false)
        × (tape bad cell e n b off
            ≡ region cell (g * e + (if g == b then off else 0)) (e - (if g == b then off else 0))
              ++ tape bad cell e (b + n - (g + 1)) (g + 1) 0)
  tape-some zero b off g found = cc
  tape-some (suc n) b off g found = elim (Bool-cases (bad b)) [
    | inl y ↦
        let (le, lt, good, eq) = tape-some n (b + 1) 0 g (rw y at found) in
        let behind : (g == b) ≡ false = ground arith in
        let size : b + suc n ≡ b + 1 + n = omega arith in
        (
          omega arith,
          omega arith,
          good,
          rw (y, behind, size) (eq ∙ rw (if_same (g == b + 1) zero) refl),
        )
    | inr n' ↦
        let same : b ≡ g = ground arith in
        let at_g : (g == b) ≡ true = ground arith in
        let size : b + suc n - (g + 1) ≡ n = omega arith in
        (omega arith, omega arith, rw (← same) n', rw (n', at_g, size, ← same) refl)
  ]

  pub tape-next :
      (n b g : ℕ)
      → first_good bad n b ≡ some g
      → tape bad cell e n b 0 ≡ region cell (g * e) e ++ tape bad cell e (b + n - (g + 1)) (g + 1) 0
  tape-next n b g found =
      (tape-some n b 0 g found).3
      ∙ ap (λ o. region cell (g * e + o) (e - o) ++ tape bad cell e (b + n - (g + 1)) (g + 1) 0)
          (if_same (g == b) zero)
      ∙ ap₂ (λ a m. region cell a m ++ tape bad cell e (b + n - (g + 1)) (g + 1) 0) (omega arith)
          (omega arith)

  -- From a position `m` bytes into the good block `g`, or at its end, the rest of this block comes
  -- first.
  pub tape_from-good :
      (c at g m : ℕ)
      → bad g ≡ false
      → g < c
      → 0 < e
      → at ≡ g * e + m
      → m ≤ e
      → tape_from bad cell e c at
        ≡ region cell at (e - m) ++ tape bad cell e (c - (g + 1)) (g + 1) 0
  tape_from-good c at g m good lt some_bytes split le = elim (Bool-cases (m == e)) [
    | inl full ↦
        let end : at ≡ (g + 1) * e = ground arith in
        let none_left : e - m ≡ 0 = ground arith in
        rw (end, mul-div_self (g + 1) e some_bytes, mul-mod_self (g + 1) e, none_left) refl
    | inr part ↦
        let blk : at / e ≡ g = grind arith in
        let off : at % e ≡ m = grind arith in
        let left : c - g ≡ suc (c - (g + 1)) = omega arith in
        rw (blk, off, left, good, ← split) refl
  ]

-- The blocks from `b` on read the same, if their cells hold the same.
pub tape-eq :
    (bad : ℕ → Bool) (f g : ℕ → ℕ) (e n b : ℕ)
    → ((x : ℕ) → b * e ≤ x → f x ≡ g x)
    → tape bad f e n b 0 ≡ tape bad g e n b 0
tape-eq bad f g e zero b same = refl
tape-eq bad f g e (suc n) b same =
    ap₂ (λ xs ys. (if bad b then [] else xs) ++ ys)
      (region-eq f g (b * e + 0) (b * e + 0) (e - 0) λ i lt. same (b * e + 0 + i) (omega arith))
      (tape-eq bad f g e n (b + 1)
        λ x le. same x (omega (arith, mul_mono b (b + 1) e (omega arith))))
