-- ===== src/Programs/Modem.antt =====
-- The modem's test in hwtest/hwtest.c and the read of the terminal that it uses.
use at91_sam9x25_drivers.Prelude.{
  ℕ, zero, suc, Bool, true, false, ◌≤◌, ◌≡◌, ◌↔◌, refl, Option, none, some, List, [], ◌∷◌, length,
  ltb, if◌then◌else◌, arith, Bool-cases, inl, inr, overlay, replicate, set, length-overlay,
  length-replicate, ◌∙◌,
}
use at91_sam9x25_drivers.Prelude.Int.{ℤ, pos, negsuc}
use at91_sam9x25_drivers.Programs.Terminal.{tty_init}

-- What the system answers: the results of `open`, of `tcgetattr`, `tcsetattr` and `write`, that of `select`, the
-- error number that it leaves, and what `read` stores, `none` where it fails.
pub record Answers : Type 0 where
  pub opened : ℤ
  pub tcgetattr : ℤ
  pub tcsetattr : ℤ
  pub written : ℤ
  pub selected : ℤ
  pub errno : ℕ
  pub received : Option (List ℕ)

-- `tty_read` for a buffer that is not NULL: its result, and what it has stored.
abbrev pub received_or : Option (List ℕ) → ℤ × List ℕ
received_or none = (negsuc 0, [])
received_or (some bytes) = (pos (length bytes), bytes)

abbrev pub after_select : Answers → ℤ → ℤ × List ℕ
after_select a (negsuc _) = (pos a.errno, [])
after_select a (pos zero) = (negsuc 0, [])
after_select a (pos (suc _)) = received_or a.received

unfoldable pub tty_read : Answers → (fd : ℤ) → ℤ × List ℕ
tty_read a (pos (suc fd)) = after_select a a.selected
tty_read a _ = (pos 1, [])

-- What `CDMA_test` does: it gives up, or it goes on to print what it has in its buffer, or nothing;
-- `fault` is a store behind the end of `buff`.
pub data Outcome : Type 0 where
  gave_up : Outcome
  printed : List ℕ → Outcome
  silent : Outcome
  fault : Outcome

-- `if (nread > 0) buff[nread] = '\0'` and the print.
abbrev pub show : ℤ × List ℕ → Outcome
show (pos (suc n), bytes) =
    let buff = overlay (replicate 512 0) 0 bytes in
    if ltb (suc n) (length buff) then printed (set buff (suc n) 0) else fault
show (_, bytes) = silent

unfoldable pub finish : Answers → (fd : ℤ) → Outcome
finish a fd = show (tty_read a fd)

-- `tty_open`: the descriptor, or -1.
unfoldable pub tty_open : Answers → ℤ
tty_open a = elim a.opened [ negsuc zero ↦ negsuc 0 | fd ↦ fd ]

-- `tty_write` of a string that is not NULL: its result, which is 1 for a descriptor up to 0.
unfoldable pub tty_write : Answers → (fd : ℤ) → ℤ
tty_write a (pos (suc fd)) = a.written
tty_write a _ = pos 1

abbrev pub not_zero : ℤ → Bool
not_zero (pos zero) = false
not_zero _ = true

-- `CDMA_test`: whether it says what it has written, which a failed write makes it say too, and what
-- it does in the end.
unfoldable pub cdma_test : Answers → Bool × Outcome
cdma_test a = elim (tty_open a) [
  | negsuc zero ↦ (false, gave_up)
  | fd ↦ elim (tty_init a.tcgetattr a.tcsetattr 115200 8 b'N' 1).0 [
    | pos zero ↦ (not_zero (tty_write a fd), finish a fd)
    | _ ↦ (false, gave_up)
  ]
]

buffer_length :
    (bytes : List ℕ) → length bytes ≤ 512 → length (overlay (replicate 512 0) 0 bytes) ≡ 512
buffer_length bytes le =
    length-overlay (replicate 512 0) 0 bytes (omega (arith, length-replicate {A = ℕ} 512 0))
    ∙ length-replicate {A = ℕ} 512 0

show-fault :
    (bytes : List ℕ)
    → length bytes ≤ 512
    → (show (pos (length bytes), bytes) ≡ fault) ↔ (length bytes ≡ 512)
show-fault [] le = (λ e. absurd (grind (arith, e)), λ e. absurd (omega (arith, e)))
show-fault (b ∷ bs) le = elim (Bool-cases (ltb (length (b ∷ bs)) 512)) [
  | inl e ↦
      rw (buffer_length (b ∷ bs) le, e)
        (λ f. absurd (grind (arith, f)), λ full. absurd (ground (arith, e, full)))
  | inr e ↦ rw (buffer_length (b ∷ bs) le, e) (λ _. ground (arith, le, e), λ _. refl)
]

-- With the terminal open and set up and bytes to read, at most as many as were asked for, the test
-- stores behind the end of its buffer exactly when the read has filled it.
pub cdma_test-overruns :
    (a : Answers) (fd n : ℕ) {bytes : List ℕ}
    → a.opened ≡ pos (suc fd)
    → a.tcgetattr ≡ pos 0
    → a.tcsetattr ≡ pos 0
    → a.selected ≡ pos (suc n)
    → a.received ≡ some bytes
    → length bytes ≤ 512
    → ((cdma_test a).1 ≡ fault) ↔ (length bytes ≡ 512)
unfolding cdma_test tty_open finish tty_read tty_init
cdma_test-overruns a fd n {bytes} opened got ready selected received le =
    rw (opened, got, ready, selected, received) (show-fault bytes le)
