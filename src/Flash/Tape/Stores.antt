-- ===== src/Flash/Tape/Stores.antt =====
-- Stores into the cells of good blocks, as stores into the tape of their bytes.
use at91_sam9x25_drivers.Prelude.{
  ℕ, ◌+◌, ◌-◌, ◌*◌, ◌/◌, ◌%◌, ◌≤◌, ◌<◌, ◌≡◌, sym, ◌∙◌, ap, ap₂, Bool, false, some, List, ◌++◌,
  length, drop, region, length-region, drop-append_left, drop-append_right, region-eq,
  region-append, arith, mul_mono,
}
use mathlib.Core.List.{append_assoc}
use native.Mathlib.Nat.{mod-lt, div-add-mod'}
use at91_sam9x25_drivers.Flash.Chip.{patched}
use at91_sam9x25_drivers.Flash.Chip.Patch.{
  patched_before, patched_after, patched-region, region-patched,
}
use at91_sam9x25_drivers.Flash.Search.Ready.{first_good}
use at91_sam9x25_drivers.Flash.Tape.{tape, tape_from}
use at91_sam9x25_drivers.Flash.Tape.Laws.{tape-eq}
use at91_sam9x25_drivers.Flash.Tape.Reads.{tape_from-here, tape-onwards, next_bounds}

-- From a position `at` in a good block on, on a device of `c` blocks.
module _ (bad : ℕ → Bool) (e c at : ℕ) (some_bytes : 0 < e) (lt : at / e < c)
    (good : bad (at / e) ≡ false) where
  abbrev head : ℕ
  head = e - at % e

  abbrev next_block : ℕ
  next_block = at / e + 1

  off_lt : at % e < e
  off_lt = mod-lt at some_bytes

  start_split : at / e * e + at % e ≡ at
  start_split = div-add-mod' at e

  abbrev behind : (ℕ → ℕ) → List ℕ
  behind cell = tape bad cell e (c - next_block) next_block 0

  -- Whatever is in the cells, the rest of the block comes first.
  here : (cell : ℕ → ℕ) → tape_from bad cell e c at ≡ region cell at head ++ behind cell
  here = tape_from-here bad e c at some_bytes lt good

  module _ (cell user : ℕ → ℕ) (buf count : ℕ) where
    abbrev this : List ℕ
    this = region cell at head

    length-this : length this ≡ head
    length-this = length-region cell at head

    abbrev data_in : List ℕ
    data_in = region user buf count

    -- Bytes stored within the block are the first bytes from there on.
    pub tape_from-stored_within :
        count ≤ head
        → tape_from bad (λ x. patched cell at (region user buf count) x) e c at
          ≡ region user buf count ++ drop count (tape_from bad cell e c at)
    tape_from-stored_within le =
        let cell' : ℕ → ℕ = λ x. patched cell at data_in x in
        let off_lt' = off_lt in
        let rest_stays : behind cell' ≡ behind cell =
          tape-eq bad cell' cell e (c - next_block) next_block λ x past.
            patched_after cell at data_in x
              (omega (arith, length-region user buf count, start_split)) in
        here cell'
        ∙ ap₂ ◌++◌ (region-patched cell user at buf count head le) rest_stays
        ∙ append_assoc data_in (drop count this) (behind cell)
        ∙ ap (λ xs. data_in ++ xs)
            (sym (
              rw (here cell)
                (drop-append_left count this (behind cell) (omega (arith, length-this)))))

    -- Bytes that go on in block `g`, the next good one.
    module _ (g : ℕ) (more : head < count) (at_most : count ≤ e)
        (found : first_good bad (c - next_block) next_block ≡ some g) where
      abbrev rest : ℕ
      rest = count - head

      abbrev first : List ℕ
      first = region user buf head

      abbrev second : List ℕ
      second = region user (buf + head) rest

      abbrev mid : ℕ → ℕ
      mid x = patched cell at first x

      abbrev both : ℕ → ℕ
      both x = patched mid (g * e) second x

      abbrev last : (ℕ → ℕ) → List ℕ
      last f = tape bad f e (c - (g + 1)) (g + 1) 0

      abbrev block : List ℕ
      block = region cell (g * e) e

      onwards : (f : ℕ → ℕ) → behind f ≡ region f (g * e) e ++ last f
      onwards f = tape-onwards bad e c at some_bytes lt good f g found

      -- The first block ends before block `g` starts.
      pub ends_before : at + head ≤ g * e
      ends_before =
          let bounds = next_bounds bad e c at some_bytes lt good cell g found in
          omega (arith, mul_mono next_block g e bounds.0, start_split, off_lt)

      past_first : (x : ℕ) → g * e ≤ x → mid x ≡ cell x
      past_first x le =
          patched_after cell at first x (omega (arith, ends_before, length-region user buf head))

      -- The three parts of the tape afterwards.
      this_stored : region both at head ≡ first
      this_stored = region-eq both user at buf head λ i lti.
          patched_before mid (g * e) second (at + i) (omega (arith, ends_before))
          ∙ patched-region cell user at buf head i lti

      block_stored : region both (g * e) e ≡ second ++ drop rest block
      block_stored =
          region-patched mid user (g * e) (buf + head) rest e (omega (arith, at_most))
          ∙ ap (λ xs. second ++ drop rest xs)
              (region-eq mid cell (g * e) (g * e) e λ i _. past_first (g * e + i) (omega arith))

      last_stays : last both ≡ last cell
      last_stays = tape-eq bad both cell e (c - (g + 1)) (g + 1) λ x past.
          patched_after mid (g * e) second x
            (omega (arith, length-region user (buf + head) rest, at_most))
          ∙ past_first x (omega (arith, past))

      left : drop count (this ++ behind cell) ≡ drop rest block ++ last cell
      left =
          drop-append_right count this (behind cell) (omega (arith, length-this, more))
          ∙ ap₂ (λ n xs. drop (count - n) xs) length-this (onwards cell)
          ∙ drop-append_left rest block (last cell)
              (omega (arith, length-region cell (g * e) e, at_most))

      pub tape_from-stored_across :
          tape_from bad
            (λ x.
              patched
                (λ y. patched cell at (region user buf head) y)
                (g * e)
                (region user (buf + head) rest)
                x)
            e
            c
            at
          ≡ region user buf count ++ drop count (tape_from bad cell e c at)
      tape_from-stored_across =
          let parts : first ++ second ≡ data_in =
            region-append user buf head rest ∙ ap (λ n. region user buf n) (omega (arith, more)) in
          here both
          ∙ ap₂ ◌++◌ this_stored (
              onwards both
              ∙ ap₂ ◌++◌ block_stored last_stays
              ∙ append_assoc second (drop rest block) (last cell))
          ∙ sym (append_assoc first second (drop rest block ++ last cell))
          ∙ ap₂ ◌++◌ parts (sym (rw (here cell) left))
