-- ===== src/Ds18b20/Crc/Detects.antt =====
-- The table of ds18b20/ds18b20.c is that of the sensor's checksum, which finds every wrong byte.
use at91_sam9x25_drivers.Prelude.{
  ℕ, zero, suc, ◌+◌, ◌*◌, ◌/◌, ◌%◌, ◌<◌, ◌≡◌, ◌≢◌, refl, sym, ap, ◌∙◌, true, ◌&&◌, List, [], ◌∷◌,
  ◌++◌, get_or, ltb, leb, ◌==◌, ==_iff, if◌then◌else◌, arith,
}
use at91_sam9x25_drivers.Prelude.Bits.{all_below, all_below-true}
use Prim.Native.Nat.{bit_xor}
use at91_sam9x25_drivers.Ds18b20.Crc.{crc_table, crc_step, crc_from, crc_check}

abbrev pub AreBytes : List ℕ → Type 0
AreBytes [] = Unit
AreBytes (b ∷ bs) = (b < 256) × AreBytes bs

-- The checksum by single bits: the remainder modulo x⁸ + x⁵ + x⁴ + 1, with the bits reversed.
abbrev pub shift_bits : ℕ → ℕ → ℕ
shift_bits zero c = c
shift_bits (suc n) c =
    let half = c / 2 in shift_bits n (if c % 2 == 1 then bit_xor half 0x8c else half)

abbrev pub crc8_from : ℕ → List ℕ → ℕ
crc8_from c [] = c
crc8_from c (b ∷ bs) = crc8_from (shift_bits 8 (bit_xor c b)) bs

-- The other way round.
unfoldable unshift : ℕ → ℕ → ℕ
unshift zero c = c
unshift (suc n) c = unshift n (if leb 128 c then 2 * bit_xor c 0x8c + 1 else 2 * c)

table_checks : all_below 256 (λ n. get_or crc_table n 0 == shift_bits 8 n) ≡ true
unfolding all_below crc_table
table_checks = refl

xor_checks :
    all_below 256
      (λ a. all_below 256 (λ b. ltb (bit_xor a b) 256 && (bit_xor (bit_xor a b) a == b)))
    ≡ true
unfolding all_below
xor_checks = refl

table_inverse :
    all_below 256 (λ n. ltb (get_or crc_table n 0) 256 && (unshift 8 (get_or crc_table n 0) == n))
    ≡ true
unfolding all_below crc_table unshift
table_inverse = refl

other_xor_checks : all_below 256 (λ a. all_below 256 (λ b. bit_xor (bit_xor a b) b == a)) ≡ true
unfolding all_below
other_xor_checks = refl

module _ (a b : ℕ) (la : a < 256) (lb : b < 256) where
  xor_facts : (bit_xor a b < 256) × (bit_xor (bit_xor a b) a ≡ b)
  xor_facts =
      let both = all_below-true 256 _ b (all_below-true 256 _ a xor_checks la) lb in
      ground (arith, both)

  xor_back : bit_xor (bit_xor a b) b ≡ a
  xor_back = (==_iff _ a).0 (all_below-true 256 _ b (all_below-true 256 _ a other_xor_checks la) lb)

  -- A round stays within a byte.
  step_bound : crc_step a b < 256
  unfolding crc_step
  step_bound =
      let both = all_below-true 256 _ (bit_xor a b) table_inverse xor_facts.0 in
      ground (arith, both)

  step_undone : unshift 8 (crc_step a b) ≡ bit_xor a b
  unfolding crc_step
  step_undone =
      let both = all_below-true 256 _ (bit_xor a b) table_inverse xor_facts.0 in
      ground (arith, both)

  step-bits : crc_step a b ≡ shift_bits 8 (bit_xor a b)
  unfolding crc_step
  step-bits = (==_iff _ _).0 (all_below-true 256 _ (bit_xor a b) table_checks xor_facts.0)

-- From the checksum of a round and either of its two bytes the other follows.
step_injects_byte :
    (a b b' : ℕ) → a < 256 → b < 256 → b' < 256 → crc_step a b ≡ crc_step a b' → b ≡ b'
step_injects_byte a b b' la lb lb' e =
    sym (xor_facts a b la lb).1
    ∙ ap (λ x. bit_xor x a)
        (sym (step_undone a b la lb) ∙ ap (unshift 8) e ∙ step_undone a b' la lb')
    ∙ (xor_facts a b' la lb').1

step_injects_crc :
    (a a' b : ℕ) → a < 256 → a' < 256 → b < 256 → crc_step a b ≡ crc_step a' b → a ≡ a'
step_injects_crc a a' b la la' lb e =
    sym (xor_back a b la lb)
    ∙ ap (λ x. bit_xor x b)
        (sym (step_undone a b la lb) ∙ ap (unshift 8) e ∙ step_undone a' b la' lb)
    ∙ xor_back a' b la' lb

crc_from_bound : (c : ℕ) (bs : List ℕ) → c < 256 → AreBytes bs → crc_from c bs < 256
unfolding crc_from
crc_from_bound c [] lc ok = lc
crc_from_bound c (b ∷ bs) lc (lb, ok) = crc_from_bound (crc_step c b) bs (step_bound c b lc lb) ok

crc_from_injects :
    (c c' : ℕ) (bs : List ℕ)
    → c < 256
    → c' < 256
    → AreBytes bs
    → crc_from c bs ≡ crc_from c' bs
    → c ≡ c'
unfolding crc_from
crc_from_injects c c' [] lc lc' ok e = e
crc_from_injects c c' (b ∷ bs) lc lc' (lb, ok) e = step_injects_crc c c' b lc lc' lb (
    crc_from_injects (crc_step c b) (crc_step c' b) bs (step_bound c b lc lb)
      (step_bound c' b lc' lb) ok e)

crc_from-append : (c : ℕ) (xs ys : List ℕ) → crc_from c (xs ++ ys) ≡ crc_from (crc_from c xs) ys
unfolding crc_from
crc_from-append c [] ys = refl
crc_from-append c (x ∷ xs) ys = crc_from-append (crc_step c x) xs ys

crc_from-crc8_from : (c : ℕ) (bs : List ℕ) → c < 256 → AreBytes bs → crc_from c bs ≡ crc8_from c bs
unfolding crc_from
crc_from-crc8_from c [] lc ok = refl
crc_from-crc8_from c (b ∷ bs) lc (lb, ok) =
    crc_from-crc8_from (crc_step c b) bs (step_bound c b lc lb) ok
    ∙ ap (λ x. crc8_from x bs) (step-bits c b lc lb)

-- On bytes the table's checksum is the one computed bit by bit.
pub crc_check-bitwise : (bs : List ℕ) → AreBytes bs → crc_check bs ≡ crc8_from 0 bs
unfolding crc_check
crc_check-bitwise bs ok = crc_from-crc8_from 0 bs (omega arith) ok

self_checks : all_below 256 (λ a. crc_step a a == 0) ≡ true
unfolding all_below crc_step crc_table
self_checks = refl

-- Bytes that pass the check do not pass it once any one of them has been changed.
pub crc_check-detects :
    (xs ys : List ℕ) (b b' : ℕ)
    → AreBytes xs
    → AreBytes ys
    → b < 256
    → b' < 256
    → b ≢ b'
    → crc_check (xs ++ b ∷ ys) ≡ 0
    → crc_check (xs ++ b' ∷ ys) ≢ 0
unfolding crc_check crc_from
crc_check-detects xs ys b b' okx oky lb lb' ne passes passes' =
    let c = crc_from 0 xs in
    let lc : c < 256 = crc_from_bound 0 xs (omega arith) okx in
    ne (
      step_injects_byte c b b' lc lb lb' (
        crc_from_injects (crc_step c b) (crc_step c b') ys (step_bound c b lc lb)
          (step_bound c b' lc lb') oky
          (sym (crc_from-append 0 xs (b ∷ ys))
            ∙ passes
            ∙ sym passes'
            ∙ crc_from-append 0 xs (b' ∷ ys))))
