-- ===== src/Flash/Search/Found.antt =====
-- The search loops of flash/at91flash.c end, and stop at the first good block.
use at91_sam9x25_drivers.Prelude.{
  ℕ, zero, suc, ◌+◌, ◌-◌, ◌*◌, ◌/◌, ◌%◌, ◌^◌, ◌≤◌, ◌<◌, ◌≡◌, refl, sym, ap, ◌∙◌, true, false,
  Option, none, some, set, length-set, if◌then◌else◌, ◌==◌, leb, Bool-cases, inl, inr, arith,
  mul-div_self, mul_mono,
}
use native.Mathlib.Nat.{mod-eq_of_lt}
use native.Mathlib.Numerals.{add-one}
use at91_sam9x25_drivers.Kernel.{sge}
use at91_sam9x25_drivers.Flash.Board.{Board}
use at91_sam9x25_drivers.Flash.State.{Flash, Out, next, Action}
use at91_sam9x25_drivers.Flash.Search.{round, find_good, with_fuel}
use at91_sam9x25_drivers.Flash.Search.Ready.{
  IsReady, first_good, marks, u32_block, is_bad, check_block_lem, block_bound,
}

module _ (p : Board) where
  -- Where the position lies once block `g` has been found.
  abbrev pub landing : ℕ → ℕ → ℕ
  landing at g = if g == at / p.erasesize then at else g * p.erasesize

  abbrev pub settled : Flash p.World → (n b : ℕ) → ℕ → Flash p.World
  settled s n b at = record s { bbt = marks (is_bad p s.world) n b s.bbt; pos = at }

  -- What a search over the last `n` blocks, from `b` on, gives.
  abbrev pub Found :
      (overrun past : Action p.World (ℕ × ℕ)) (s : Flash p.World) (n b : ℕ)
      → Option ℕ
      → Out p.World (ℕ × ℕ)
      → Type 0
  Found overrun past s n b (some g) out =
      (b ≤ g)
      × (g < s.ebcnt)
      × (out ≡ next (g, landing s.pos g % p.erasesize) (settled s n b (landing s.pos g)))
  Found overrun past s zero b none out = out ≡ overrun s
  Found overrun past s (suc n) b none out = out ≡ past (settled s (suc n) b p.size)

  skip : (b : ℕ) (s : Flash p.World) → Flash p.World
  skip b s = record s { bbt = set s.bbt b 1; pos = (b + 1) * p.erasesize }

  skip-IsReady : (s : Flash p.World) (b : ℕ) → IsReady p s → b < s.ebcnt → IsReady p (skip b s)
  unfolding skip
  skip-IsReady s b v lt = record {
    block_pos = v.block_pos;
    fits = v.fits;
    whole = v.whole;
    few = v.few;
    table = length-set s.bbt b 1 ∙ v.table;
    at = omega (arith, mul_mono (b + 1) s.ebcnt p.erasesize (omega arith), v.whole);
    known = v.known;
  }

  sge_lem : (b c : ℕ) → b < 2 ^ 31 → c < 2 ^ 31 → sge b c ≡ leb c b
  sge_lem b c hb hc = ground arith

  -- One round of the loop on a device, by what it finds at the block `b` of the position.
  module _ (overrun past again : Action p.World (ℕ × ℕ)) (b : ℕ) (s : Flash p.World)
      (v : IsReady p s) (at : b ≡ s.pos / p.erasesize) where
    round_over : s.ebcnt ≤ b → b ≤ s.ebcnt + 1 → round p overrun past again s ≡ overrun s
    unfolding round
    round_over le ge = ground (arith, v.few)

    round_stop :
        b < s.ebcnt
        → is_bad p s.world b ≡ false
        → round p overrun past again s
          ≡ next (b, s.pos % p.erasesize) (record s { bbt = set s.bbt b 0 })
    unfolding round
    round_stop lt good = ground (
      arith,
      v.few,
      mod-eq_of_lt {n = b} {m = 2 ^ 32} (omega (arith, v.few)),
      check_block_lem p s b v,
    )

    round_past :
        b + 1 ≡ s.ebcnt → is_bad p s.world b ≡ true → round p overrun past again s ≡ past (skip b s)
    unfolding round skip
    round_past last bad =
        ground
          (arith, v.few, v.whole, u32_block b s.ebcnt p.erasesize, v.fits, check_block_lem p s b v)

    round_again :
        b + 1 < s.ebcnt
        → is_bad p s.world b ≡ true
        → round p overrun past again s ≡ again (skip b s)
    unfolding round skip
    round_again more bad = ground (
      arith,
      v.few,
      v.whole,
      u32_block b s.ebcnt p.erasesize,
      v.fits,
      check_block_lem p s b v,
      mul_mono (b + 2) s.ebcnt p.erasesize,
      v.block_pos,
    )

  skip-at : (b : ℕ) (s : Flash p.World) → IsReady p s → b + 1 ≡ (skip b s).pos / p.erasesize
  unfolding skip
  skip-at b s v = sym (mul-div_self (b + 1) p.erasesize v.block_pos)

  skip_last :
      (b : ℕ) (s : Flash p.World)
      → IsReady p s
      → b + 1 ≡ s.ebcnt
      → skip b s ≡ record s { bbt = set s.bbt b 1; pos = p.size }
  unfolding skip
  skip_last b s v last = ap (λ n. record s { bbt = set s.bbt b 1; pos = n }) at_end
    where
      at_end : (b + 1) * p.erasesize ≡ p.size
      at_end = rw last v.whole

  round_settles :
      (overrun past again : Action p.World (ℕ × ℕ)) (b : ℕ) (s : Flash p.World)
      → IsReady p s
      → b ≡ s.pos / p.erasesize
      → b < s.ebcnt
      → is_bad p s.world b ≡ false
      → round p overrun past again s
        ≡ next
            (b, landing s.pos b % p.erasesize)
            (record s { bbt = set s.bbt b 0; pos = landing s.pos b })
  round_settles overrun past again b s v at lt good =
      rw stays (round_stop overrun past again b s v at lt good)
    where
      stays : landing s.pos b ≡ s.pos
      stays = ground arith

  -- What is found after a bad block is what is found from it.
  Found-skip :
      (overrun past : Action p.World (ℕ × ℕ)) (s : Flash p.World) (n b : ℕ) (o : Option ℕ)
      (out : Out p.World (ℕ × ℕ))
      → IsReady p s
      → b ≡ s.pos / p.erasesize
      → is_bad p s.world b ≡ true
      → Found overrun past (skip b s) (suc n) (b + 1) o out
      → Found overrun past s (suc (suc n)) b o out
  unfolding skip
  Found-skip overrun past s n b (some g) out v at bad (le, lt, e) =
      (omega arith, lt, rw (bad, ← landing_skip) e)
    where
      landing_skip : landing ((b + 1) * p.erasesize) g ≡ landing s.pos g
      landing_skip = ground (arith, mul-div_self (b + 1) p.erasesize v.block_pos)
  Found-skip overrun past s n b none out v at bad f = rw bad f

  -- From a state on the device the search ends within its fuel. It stops at the first good block
  -- from that of the position on; the position stays if its own block is good, and else moves to
  -- the start of that block.
  pub find_good_lem :
      (n fuel b : ℕ) (overrun past : Action p.World (ℕ × ℕ)) (s : Flash p.World)
      → IsReady p s
      → b ≡ s.pos / p.erasesize
      → n ≡ s.ebcnt - b
      → n < fuel
      → Found overrun past s n b
          (first_good (is_bad p s.world) n b)
          (find_good p fuel overrun past s)
  unfolding find_good skip
  find_good_lem n zero b overrun past s v at sum lt = absurd (omega arith)
  find_good_lem zero (suc fuel) b overrun past s v at sum lt =
      round_over overrun past (find_good p fuel overrun past) b s v at (omega arith)
        (omega (arith, block_bound p s v))
  find_good_lem (suc zero) (suc fuel) b overrun past s v at sum lt =
      elim (Bool-cases (is_bad p s.world b)) [
        | inl bad ↦
            rw (bad, bad)
              (round_past overrun past (find_good p fuel overrun past) b s v at (omega arith) bad
                ∙ ap past (skip_last b s v (omega arith)))
        | inr good ↦
            rw (good, good)
              (
                omega arith,
                omega arith,
                round_settles overrun past (find_good p fuel overrun past) b s v at (omega arith)
                    good,
              )
      ]
  find_good_lem (suc (suc n)) (suc fuel) b overrun past s v at sum lt =
      elim (Bool-cases (is_bad p s.world b)) [
        | inl bad ↦
            rw
              (
                bad,
                round_again overrun past (find_good p fuel overrun past) b s v at (omega arith) bad,
              )
              (Found-skip overrun past s n b (first_good (is_bad p s.world) (suc n) (b + 1)) _ v at
                bad
                (find_good_lem (suc n) fuel (b + 1) overrun past (skip b s)
                  (skip-IsReady s b v (omega arith)) (skip-at b s v) (omega arith) (omega arith)))
        | inr good ↦
            rw (good, good)
              (
                omega arith,
                omega arith,
                round_settles overrun past (find_good p fuel overrun past) b s v at (omega arith)
                    good,
              )
      ]

  -- A search that starts in a good block ends there.
  pub find_here :
      (overrun past : Action p.World (ℕ × ℕ)) (s : Flash p.World)
      → IsReady p s
      → s.pos / p.erasesize < s.ebcnt
      → is_bad p s.world (s.pos / p.erasesize) ≡ false
      → with_fuel p (λ n. find_good p n overrun past) s
        ≡ next
            (s.pos / p.erasesize, s.pos % p.erasesize)
            (record s { bbt = set s.bbt (s.pos / p.erasesize) 0 })
  unfolding find_good
  find_here overrun past s v lt good = rw add-one (
      round_stop overrun past (find_good p s.ebcnt overrun past) (s.pos / p.erasesize) s v refl lt
        good)
