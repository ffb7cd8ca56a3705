-- ===== src/Flash/Tape/Reads.antt =====
-- The tape of good bytes from a position on: its bytes, and what is left of it behind them.
use at91_sam9x25_drivers.Prelude.{
  ℕ, ◌+◌, ◌-◌, ◌*◌, ◌/◌, ◌%◌, ◌≤◌, ◌<◌, ◌≡◌, refl, sym, ◌∙◌, ap, Bool, false, none, some, List,
  ◌++◌, length, drop, region, length-region, length-append, drop-append_left, drop-append_right,
  drop-region, get_or, get_or-region, get_or-append_left, get_or-append_right, arith,
}
use native.Mathlib.Nat.{mod-lt, div-add-mod'}
use at91_sam9x25_drivers.Flash.Search.Ready.{first_good}
use at91_sam9x25_drivers.Flash.Tape.{tape, tape_from}
use at91_sam9x25_drivers.Flash.Tape.Laws.{tape-none, tape-some, tape-next, tape_from-good}

-- From a position `at` in a good block on, on a device of `c` blocks.
module _ (bad : ℕ → Bool) (e c at : ℕ) (some_bytes : 0 < e) (lt : at / e < c)
    (good : bad (at / e) ≡ false) (cell : ℕ → ℕ) where
  abbrev head : ℕ
  head = e - at % e

  abbrev next_block : ℕ
  next_block = at / e + 1

  abbrev this : List ℕ
  this = region cell at head

  abbrev behind : List ℕ
  behind = tape bad cell e (c - next_block) next_block 0

  off_lt : at % e < e
  off_lt = mod-lt at some_bytes

  start_split : at / e * e + at % e ≡ at
  start_split = div-add-mod' at e

  -- The rest of the block comes first.
  pub tape_from-here : tape_from bad cell e c at ≡ this ++ behind
  tape_from-here =
      let off_lt' = off_lt in
      tape_from-good bad cell e c at (at / e) (at % e) good lt some_bytes (sym start_split)
        (omega arith)

  length-this : length this ≡ head
  length-this = length-region cell at head

  -- Where no good block follows, it is all.
  pub length-tape_from_last :
      first_good bad (c - next_block) next_block ≡ none → length (tape_from bad cell e c at) ≡ head
  length-tape_from_last missing =
      let empty = tape-none bad cell e (c - next_block) next_block 0 missing in
      rw tape_from-here (omega (arith, length-append this behind, length-this, ap length empty))

  pub get_or-tape_from_here :
      (i : ℕ) → i < head → get_or (tape_from bad cell e c at) i 0 ≡ cell (at + i)
  get_or-tape_from_here i lti = rw tape_from-here (
      get_or-append_left this behind i 0 (omega (arith, length-this))
      ∙ get_or-region cell at head i 0 lti)

  pub drop-tape_from_here :
      (n : ℕ) → n ≤ head → drop n (tape_from bad cell e c at) ≡ tape_from bad cell e c (at + n)
  drop-tape_from_here n le =
      let off_lt' = off_lt in
      rw tape_from-here (
        drop-append_left n this behind (omega (arith, length-this))
        ∙ ap (λ xs. xs ++ behind) (drop-region cell at head n le)
        ∙ ap (λ m. region cell (at + n) m ++ behind) (omega arith)
        ∙ sym (
            tape_from-good bad cell e c (at + n) (at / e) (at % e + n) good lt some_bytes
              (omega (arith, start_split)) (omega arith)))

  -- Block `g` is the next good one.
  module _ (g : ℕ) (found : first_good bad (c - next_block) next_block ≡ some g) where
    abbrev block : List ℕ
    block = region cell (g * e) e

    abbrev last : List ℕ
    last = tape bad cell e (c - (g + 1)) (g + 1) 0

    length-block : length block ≡ e
    length-block = length-region cell (g * e) e

    pub tape-onwards : behind ≡ block ++ last
    tape-onwards =
        let size : next_block + (c - next_block) ≡ c = omega (arith, lt) in
        let unsized = tape-next bad cell e (c - next_block) next_block g found in rw size at unsized

    pub next_bounds : (next_block ≤ g) × (g < c)
    next_bounds =
        let (g_ge, g_lt, _, _) = tape-some bad cell e (c - next_block) next_block 0 g found in
        (g_ge, omega arith)

    pub get_or-tape_from_next :
        (i : ℕ) → i < e → get_or (tape_from bad cell e c at) (head + i) 0 ≡ cell (g * e + i)
    get_or-tape_from_next i lti =
        rw (tape_from-here, tape-onwards)
          (get_or-append_right this (block ++ last) (head + i) 0 (omega (arith, length-this))
            ∙ ap (λ k. get_or (block ++ last) k 0) {y = i} (omega (arith, length-this))
            ∙ get_or-append_left block last i 0 (omega (arith, length-block))
            ∙ get_or-region cell (g * e) e i 0 lti)

    pub drop-tape_from_next :
        (n : ℕ)
        → n ≤ e
        → drop (head + n) (tape_from bad cell e c at) ≡ tape_from bad cell e c (g * e + n)
    drop-tape_from_next n le =
        let g_good = (tape-some bad cell e (c - next_block) next_block 0 g found).2 in
        rw (tape_from-here, tape-onwards)
          (drop-append_right (head + n) this (block ++ last) (omega (arith, length-this))
            ∙ ap (λ k. drop k (block ++ last)) {y = n} (omega (arith, length-this))
            ∙ drop-append_left n block last (omega (arith, length-block))
            ∙ ap (λ xs. xs ++ last) (drop-region cell (g * e) e n le)
            ∙ sym (
                tape_from-good bad cell e c (g * e + n) g n g_good next_bounds.1 some_bytes refl
                  le))
