-- ===== src/Flash/Chip/Patch.antt =====
-- Stores into a memory, and a block whose buffer has been patched.
use at91_sam9x25_drivers.Prelude.{
  ℕ, suc, ◌+◌, ◌-◌, ◌≤◌, ◌<◌, ◌≡◌, refl, ◌∙◌, ap, List, length, get_or, region, overlay, ltb,
  if◌then◌else◌, length-region, get_or-region, length-overlay, get_or-overlay_before,
  get_or-overlay_in, get_or-overlay_after, arith, replicate, sym, ◌++◌, drop, region-append,
  region-eq, drop-region,
}
use at91_sam9x25_drivers.Flash.Chip.{patched}

pub patched_in :
    (m : ℕ → ℕ) (a : ℕ) (bytes : List ℕ) (x : ℕ)
    → a ≤ x
    → x < a + length bytes
    → patched m a bytes x ≡ get_or bytes (x - a) 0
patched_in m a bytes x le lt = ground arith

pub patched_before :
    (m : ℕ → ℕ) (a : ℕ) (bytes : List ℕ) (x : ℕ) → x < a → patched m a bytes x ≡ m x
patched_before m a bytes x lt = ground arith

pub patched_after :
    (m : ℕ → ℕ) (a : ℕ) (bytes : List ℕ) (x : ℕ) → a + length bytes ≤ x → patched m a bytes x ≡ m x
patched_after m a bytes x le = ground arith

pub get_or-replicate : (n i v : ℕ) → i < n → get_or (replicate n v) i 0 ≡ v
get_or-replicate ℕ.zero i v h = absurd (omega arith)
get_or-replicate (suc n) ℕ.zero v h = refl
get_or-replicate (suc n) (suc i) v h = get_or-replicate n i v (omega arith)

-- Of two stores to one place the second remains, if it is as long.
pub patched_twice :
    (m m' : ℕ → ℕ) (a : ℕ) (old new : List ℕ) (x : ℕ)
    → length old ≡ length new
    → ((y : ℕ) → m' y ≡ patched m a old y)
    → patched m' a new x ≡ patched m a new x
patched_twice m m' a old new x e h = ground (arith, h x)

-- A block that is written back with `bytes` laid over it at `off` is a store of `bytes` there.
pub patched-overlay :
    (m : ℕ → ℕ) (a off n : ℕ) (bytes : List ℕ) (x : ℕ)
    → off + length bytes ≤ n
    → patched m a (overlay (region m a n) off bytes) x ≡ patched m (a + off) bytes x
patched-overlay m a off n bytes x fits =
    let len : length (overlay (region m a n) off bytes) ≡ n =
      length-overlay (region m a n) off bytes (omega (arith, length-region m a n))
      ∙ length-region m a n in
    let room : off + length bytes ≤ length (region m a n) = omega (arith, length-region m a n) in
    let same : a ≤ x → a + (x - a) ≡ x = λ h. omega arith in
    let inner : a + off ≤ x → off + (x - (a + off)) ≡ x - a = λ h. omega arith in
    ground (
      arith,
      get_or-overlay_before (region m a n) off bytes (x - a) 0 room,
      get_or-overlay_in (region m a n) off bytes (x - (a + off)) 0 room,
      get_or-overlay_after (region m a n) off bytes (x - a) 0 room,
      get_or-region m a n (x - a) 0,
    )

-- A buffer whose front is `bytes`, stored at 0.
pub patched_front :
    (m : ℕ → ℕ) (kbuf bytes : List ℕ) (x : ℕ)
    → length bytes ≤ length kbuf
    → patched m 0 (overlay kbuf 0 bytes) x ≡ (
        if ltb x (length bytes)
        then get_or bytes x 0
        else if ltb x (length kbuf)
        then get_or kbuf x 0
        else m x)
patched_front m kbuf bytes x le =
    let fit : 0 + length bytes ≤ length kbuf = omega arith in
    let in_bytes : get_or (overlay kbuf 0 bytes) (0 + x) 0
        ≡ get_or (overlay kbuf 0 bytes) (x - 0) 0 =
      ap (λ k. get_or (overlay kbuf 0 bytes) k 0) {x = 0 + x} {y = x - 0} (omega arith) in
    let from_kbuf : get_or (overlay kbuf 0 bytes) x 0 ≡ get_or (overlay kbuf 0 bytes) (x - 0) 0 =
      ap (λ k. get_or (overlay kbuf 0 bytes) k 0) {x = x} {y = x - 0} (omega arith) in
    ground (
      arith,
      in_bytes,
      from_kbuf,
      length-overlay kbuf 0 bytes fit,
      get_or-overlay_in kbuf 0 bytes x 0 fit,
      get_or-overlay_after kbuf 0 bytes x 0 fit,
    )

-- A stretch of another memory, stored from `a` on.
pub patched-region :
    (m f : ℕ → ℕ) (a b n i : ℕ) → i < n → patched m a (region f b n) (a + i) ≡ f (b + i)
patched-region m f a b n i lt =
    patched_in m a (region f b n) (a + i) (omega arith) (omega (arith, length-region f b n))
    ∙ ap (λ k. get_or (region f b n) k 0) {x = a + i - a} {y = i} (omega arith)
    ∙ get_or-region f b n i 0 lt

-- The stretch behind `a` after a store of `n` bytes there.
pub region-patched :
    (m f : ℕ → ℕ) (a b n k : ℕ)
    → n ≤ k
    → region (λ x. patched m a (region f b n) x) a k ≡ region f b n ++ drop n (region m a k)
region-patched m f a b n k le =
    let g : ℕ → ℕ = λ x. patched m a (region f b n) x in
    let size : n + (k - n) ≡ k = omega arith in
    let parts : region g a n ++ region g (a + n) (k - n) ≡ region g a (n + (k - n)) =
      region-append g a n (k - n) in
    sym (rw size at parts)
    ∙ ap (λ xs. xs ++ region g (a + n) (k - n))
        (region-eq g f a b n (λ i lt. patched-region m f a b n i lt))
    ∙ ap (λ xs. region f b n ++ xs)
        (region-eq g m (a + n) (a + n) (k - n) (λ i lt.
            patched_after m a (region f b n) (a + n + i) (omega (arith, length-region f b n)))
          ∙ sym (drop-region m a k n le))
