-- ===== src/Prelude/Region.antt =====
-- A stretch of a memory, as a list, and a list laid over part of another (a copy into a buffer).
use Prim.Native.Nat.{ℕ, zero, suc, ◌+◌, ◌-◌, ◌<◌, ◌≤◌}
use mathlib.Core.Path.{◌≡◌, refl, sym, ap, ap₂, ◌∙◌}
use mathlib.Core.List.{List, [], ◌∷◌, ◌++◌, append-nil}
use native.Mathlib.Omega.{arith}
use at91_sam9x25_drivers.Prelude.Lists.{
  length, get_or, take, drop, length-append, length-take, length-drop, get_or-append_left,
  get_or_ext, get_or-append_right, get_or-take, get_or-drop,
}

module _ {ℓ} {A : Type ℓ} where
  -- The `n` values of `m` from `a` on.
  abbrev pub region : (ℕ → A) → ℕ → ℕ → List A
  region m a zero = []
  region m a (suc n) = m a ∷ region m (a + 1) n

  pub length-region : (m : ℕ → A) (a n : ℕ) → length (region m a n) ≡ n
  length-region m a zero = refl
  length-region m a (suc n) = ap suc (length-region m (a + 1) n)

  pub get_or-region :
      (m : ℕ → A) (a n i : ℕ) (d : A) → i < n → get_or (region m a n) i d ≡ m (a + i)
  get_or-region m a zero i d h = absurd (omega arith)
  get_or-region m a (suc n) zero d h = let e : a ≡ a + 0 = omega arith in ap m e
  get_or-region m a (suc n) (suc i) d h =
      let e : a + 1 + i ≡ a + suc i = omega arith in
      get_or-region m (a + 1) n i d (omega arith) ∙ ap m e

  -- Two stretches with the same values, and a stretch in two parts.
  pub region-eq :
      (f g : ℕ → A) (a b n : ℕ)
      → ((i : ℕ) → i < n → f (a + i) ≡ g (b + i))
      → region f a n ≡ region g b n
  region-eq f g a b zero same = refl
  region-eq f g a b (suc n) same =
      ap₂ ◌∷◌
        (ap f {x = a} {y = a + 0} (omega arith)
          ∙ same 0 (omega arith)
          ∙ ap g {x = b + 0} {y = b} (omega arith))
        (region-eq f g (a + 1) (b + 1) n λ i lt.
          ap f {x = a + 1 + i} {y = a + suc i} (omega arith)
          ∙ same (suc i) (omega arith)
          ∙ ap g {x = b + suc i} {y = b + 1 + i} (omega arith))

  pub region-append :
      (f : ℕ → A) (a n k : ℕ) → region f a n ++ region f (a + n) k ≡ region f a (n + k)
  region-append f a zero k = ap₂ (λ x y. region f x y) (omega arith) (omega arith)
  region-append f a (suc n) k =
      let size : suc n + k ≡ suc (n + k) = omega arith in
      rw size (
        ap (λ xs. f a ∷ xs)
          (ap (λ x. region f (a + 1) n ++ region f x k) (omega arith)
            ∙ region-append f (a + 1) n k))

  -- A stretch of memory that holds the first bytes of a list.
  pub region-take :
      (m : ℕ → A) (a n : ℕ) (xs : List A) (d : A)
      → n ≤ length xs
      → ((i : ℕ) → i < n → m (a + i) ≡ get_or xs i d)
      → region m a n ≡ take n xs
  region-take m a n xs d le same =
      get_or_ext d (region m a n) (take n xs) (omega (arith, length-region m a n, length-take n xs))
        λ i lt.
          let in_n : i < n = omega (arith, length-region m a n) in
          get_or-region m a n i d in_n ∙ same i in_n ∙ sym (get_or-take n xs i d in_n)

  pub drop-region :
      (m : ℕ → A) (a n k : ℕ) → k ≤ n → drop k (region m a n) ≡ region m (a + k) (n - k)
  drop-region m a n zero h = ap₂ (λ x y. region m x y) (omega arith) (omega arith)
  drop-region m a zero (suc k) h = absurd (omega arith)
  drop-region m a (suc n) (suc k) h =
      drop-region m (a + 1) n k (omega arith)
      ∙ ap₂ (λ x y. region m x y) (omega arith) (omega arith)

  -- `xs` with `ys` laid over it from index `off` on.
  abbrev pub overlay : List A → ℕ → List A → List A
  overlay xs off ys = take off xs ++ (ys ++ drop (off + length ys) xs)

  pub length-overlay :
      (xs : List A) (off : ℕ) (ys : List A)
      → off + length ys ≤ length xs
      → length (overlay xs off ys) ≡ length xs
  length-overlay xs off ys h = omega (
    arith,
    length-append (take off xs) (ys ++ drop (off + length ys) xs),
    length-append ys (drop (off + length ys) xs),
    length-take off xs,
    length-drop (off + length ys) xs,
  )

  pub get_or-overlay_before :
      (xs : List A) (off : ℕ) (ys : List A) (i : ℕ) (d : A)
      → off + length ys ≤ length xs
      → i < off
      → get_or (overlay xs off ys) i d ≡ get_or xs i d
  get_or-overlay_before xs off ys i d h lt =
      get_or-append_left (take off xs) (ys ++ drop (off + length ys) xs) i d
        (omega (arith, length-take off xs))
      ∙ get_or-take off xs i d lt

  pub get_or-overlay_in :
      (xs : List A) (off : ℕ) (ys : List A) (i : ℕ) (d : A)
      → off + length ys ≤ length xs
      → i < length ys
      → get_or (overlay xs off ys) (off + i) d ≡ get_or ys i d
  get_or-overlay_in xs off ys i d h lt =
      let taken : length (take off xs) ≡ off = omega (arith, length-take off xs) in
      let at : off + i - length (take off xs) ≡ i = omega arith in
      get_or-append_right (take off xs) (ys ++ drop (off + length ys) xs) (off + i) d (omega arith)
      ∙ ap (λ k. get_or (ys ++ drop (off + length ys) xs) k d) at
      ∙ get_or-append_left ys (drop (off + length ys) xs) i d lt

  pub get_or-overlay_after :
      (xs : List A) (off : ℕ) (ys : List A) (i : ℕ) (d : A)
      → off + length ys ≤ length xs
      → off + length ys ≤ i
      → get_or (overlay xs off ys) i d ≡ get_or xs i d
  get_or-overlay_after xs off ys i d h le =
      let taken : length (take off xs) ≡ off = omega (arith, length-take off xs) in
      let at : off + length ys + (i - length (take off xs) - length ys) ≡ i = omega arith in
      get_or-append_right (take off xs) (ys ++ drop (off + length ys) xs) i d (omega arith)
      ∙ get_or-append_right ys (drop (off + length ys) xs) (i - length (take off xs)) d
          (omega arith)
      ∙ get_or-drop (off + length ys) xs (i - length (take off xs) - length ys) d
      ∙ ap (λ k. get_or xs k d) at

  drop_all : (n : ℕ) (xs : List A) → length xs ≤ n → drop n xs ≡ []
  drop_all zero [] h = refl
  drop_all zero (x ∷ xs) h = absurd (omega arith)
  drop_all (suc n) [] h = refl
  drop_all (suc n) (x ∷ xs) h = drop_all n xs (omega arith)

  -- A list laid over all of another replaces it.
  pub overlay_all : (xs ys : List A) → length xs ≤ length ys → overlay xs 0 ys ≡ ys
  overlay_all xs ys h = rw (drop_all (0 + length ys) xs (omega arith), append-nil)
