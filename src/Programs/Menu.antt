-- ===== src/Programs/Menu.antt =====
-- The menu of hwtest/hwtest.c.
use at91_sam9x25_drivers.Prelude.{
  ℕ, zero, suc, ◌≡◌, refl, true, false, Option, none, some, List, [], ◌∷◌, length, ◌==◌, ltb,
  if◌then◌else◌, Bool-cases, Option-cases, inl, inr, arith,
}
use mathlib.Core.Option.{map}

-- What an order runs, `no_order` being the message for any other character.
pub data Run : Type 0 where
  ds18b20_test rtc_test adc_test nand_flash_test cdma_test gpio_test no_order : Run

abbrev pub order : ℕ → Run
order ch =
    if ch == b'1'
    then ds18b20_test
    else if ch == b'2'
    then rtc_test
    else if ch == b'3'
    then adc_test
    else if ch == b'4'
    then nand_flash_test
    else if ch == b'5'
    then cdma_test
    else if ch == b'6'
    then gpio_test
    else no_order

abbrev pub also : Run → Option (List Run) → Option (List Run)
also r none = none
also r (some rs) = some (r ∷ rs)

-- The loop of `main` for `fuel` rounds: what was run once it has ended. At the end of the input
-- `getchar` gives -1, which is the character 255.
unfoldable pub main : (fuel : ℕ) → List ℕ → Option (List Run)
main zero input = none
main (suc n) [] = also (order 255) (main n [])
main (suc n) (ch ∷ input) =
    let rest = main n input in
    if ch == b'q' then some [] else if ch == b'\n' then rest else also (order ch) rest

-- What the characters run, the line ends running nothing.
abbrev pub orders : List ℕ → List Run
orders [] = []
orders (x ∷ xs) = let rest = orders xs in if x == b'\n' then rest else order x ∷ rest

-- The characters before the first `q`, if there is one.
abbrev pub before_q : List ℕ → Option (List ℕ)
before_q [] = none
before_q (x ∷ xs) =
    let rest = map (λ ys. x ∷ ys) (before_q xs) in if x == b'q' then some [] else rest

-- What `n` rounds have run when the program has ended, given the characters before the `q`.
abbrev pub ended : (n : ℕ) → Option (List ℕ) → Option (List Run)
ended n none = none
ended n (some xs) = if ltb (length xs) n then some (orders xs) else none

ltb-suc : (m n : ℕ) → ltb (suc m) (suc n) ≡ ltb m n
ltb-suc m n = ground arith

zero-ltb : (n : ℕ) → ltb 0 (suc n) ≡ true
zero-ltb n = ground arith

ltb-zero : (m : ℕ) → ltb m 0 ≡ false
ltb-zero m = ground arith

-- The next character is a line end, or an order.
ended-newline :
    (n x : ℕ) (o : Option (List ℕ))
    → (x == b'\n') ≡ true
    → ended n o ≡ ended (suc n) (map (λ ys. x ∷ ys) o)
ended-newline n x none e = refl
ended-newline n x (some xs) e = rw (ltb-suc (length xs) n, e) refl

ended-order :
    (n x : ℕ) (o : Option (List ℕ))
    → (x == b'\n') ≡ false
    → also (order x) (ended n o) ≡ ended (suc n) (map (λ ys. x ∷ ys) o)
ended-order n x none e = refl
ended-order n x (some xs) e = elim (Bool-cases (ltb (length xs) n)) [
  | inl y ↦ rw (ltb-suc (length xs) n, y, e) refl
  | inr y ↦ rw (ltb-suc (length xs) n, y) refl
]

-- On an input with a `q` the program has ended after as many rounds as there are characters up to the
-- first one, and not before, and has run the orders before it. On an input without a `q` no number of
-- rounds ends it: the end of the input is taken for an order.
pub main-ends : (n : ℕ) (input : List ℕ) → main n input ≡ ended n (before_q input)
unfolding main
main-ends zero input = elim (Option-cases (before_q input)) [
  | inl e ↦ rw e refl
  | inr (xs, e) ↦ rw (e, ltb-zero (length xs)) refl
]
main-ends (suc n) [] = rw (main-ends n []) refl
main-ends (suc n) (x ∷ input) = elim (Bool-cases (x == b'q')) [
  | inl e ↦ rw (e, zero-ltb n) refl
  | inr ne ↦ elim (Bool-cases (x == b'\n')) [
    | inl e ↦ rw (ne, e, main-ends n input) (ended-newline n x (before_q input) e)
    | inr e ↦ rw (ne, e, main-ends n input) (ended-order n x (before_q input) e)
  ]
]
