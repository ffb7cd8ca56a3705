-- ===== src/Adc/Ring.antt =====
-- One ring buffer of at91adc/at91adc.c holds the last samples of its channel.
use at91_sam9x25_drivers.Prelude.{
  ℕ, zero, suc, ◌+◌, ◌-◌, ◌*◌, ◌^◌, ◌≤◌, ◌<◌, ◌≡◌, ◌≢◌, refl, sym, ap, ◌∙◌, some, List, [], ◌∷◌,
  length, get_or, set, replicate, ltb, leb, if◌then◌else◌, lt→ltb, arith, length-set,
  length-replicate, get_or-set_self, get_or-set_ne, Bool-cases, inl, inr, ltb→lt,
}
use native.Mathlib.Nat.{mod-eq_of_lt}
use at91_sam9x25_drivers.Adc.{add_up}

-- The `n` cells from `j` on, and the `n` newest samples, those before the first counting 0.
pub sum_from : (n j : ℕ) → List ℕ → ℕ
sum_from zero j buf = 0
sum_from (suc n) j buf = get_or buf j 0 + sum_from n (j + 1) buf

pub recent : ℕ → List ℕ → ℕ
recent zero hist = 0
recent (suc n) hist = recent n hist + get_or hist n 0

recent-cons : (n v : ℕ) (hist : List ℕ) → recent (suc n) (v ∷ hist) ≡ v + recent n hist
unfolding recent
recent-cons zero v hist = omega arith
recent-cons (suc n) v hist = omega (arith, recent-cons n v hist)

pub recent_bound :
    (n b : ℕ) (hist : List ℕ) → ((k : ℕ) → get_or hist k 0 ≤ b) → recent n hist ≤ n * b
unfolding recent
recent_bound zero b hist h = omega arith
recent_bound (suc n) b hist h = grind (arith, recent_bound n b hist h, h n)

pub get_or-zeros : (m j : ℕ) → get_or {A = ℕ} (replicate m 0) j 0 ≡ 0
get_or-zeros zero j = refl
get_or-zeros (suc m) zero = refl
get_or-zeros (suc m) (suc j) = get_or-zeros m j

sum_from-replicate : (n j m : ℕ) → sum_from n j (replicate m 0) ≡ 0
unfolding sum_from
sum_from-replicate zero j m = refl
sum_from-replicate (suc n) j m = omega (arith, sum_from-replicate n (j + 1) m, get_or-zeros m j)

sum_from-before :
    (n j i v : ℕ) (buf : List ℕ) → i < j → sum_from n j (set buf i v) ≡ sum_from n j buf
unfolding sum_from
sum_from-before zero j i v buf lt = refl
sum_from-before (suc n) j i v buf lt = omega (
  arith,
  sum_from-before n (j + 1) i v buf (omega arith),
  get_or-set_ne buf i j v 0 (λ e. omega arith),
)

sum_from-set :
    (n j i v : ℕ) (buf : List ℕ)
    → j ≤ i
    → i < j + n
    → i < length buf
    → sum_from n j (set buf i v) + get_or buf i 0 ≡ sum_from n j buf + v
unfolding sum_from
sum_from-set zero j i v buf le lt fits = absurd (omega arith)
sum_from-set (suc n) j i v buf le lt fits = elim (Bool-cases (ltb j i)) [
  | inl e ↦ omega (
    arith,
    ltb→lt j i e,
    sum_from-set n (j + 1) i v buf (omega (arith, ltb→lt j i e)) (omega arith) fits,
    get_or-set_ne buf i j v 0 (λ e'. omega (arith, ltb→lt j i e)),
  )
  | inr e ↦ here (ground arith)
]
  where
    here : i ≡ j → sum_from (suc n) j (set buf i v) + get_or buf i 0 ≡ sum_from (suc n) j buf + v
    here e = rw e (
        omega (
          arith,
          get_or-set_self buf j v 0 (omega arith),
          sum_from-before n (j + 1) j v buf (omega arith),
        ))

-- The loop of the read sums up the cells, if the sum fits an `unsigned int`.
pub add_up-sum_from :
    (n j acc : ℕ) (buf : List ℕ)
    → j + n ≤ length buf
    → acc + sum_from n j buf < 2 ^ 32
    → add_up n j buf acc ≡ some (acc + sum_from n j buf)
unfolding add_up sum_from
add_up-sum_from zero j acc buf fits small = ap some (omega arith)
add_up-sum_from (suc n) j acc buf fits small =
    rw
      (
        lt→ltb j (length buf) (omega arith),
        mod-eq_of_lt {n = acc + get_or buf j 0} {m = 2 ^ 32} (omega arith),
      )
      (add_up-sum_from n (j + 1) (acc + get_or buf j 0) buf (omega arith) (omega arith)
        ∙ ap some (omega arith))

-- The cell of the k-th newest sample in a ring of `n` cells that is next written at `at`.
abbrev pub slot : (n at k : ℕ) → ℕ
slot n at k = if ltb k at then at - 1 - k else at + n - 1 - k

-- The ring `buf` of `n` cells holds the newest `n` of the samples `hist`, which has the last first.
pub record IsRing (n at : ℕ) (buf hist : List ℕ) : Type 0 where
  pub size : length buf ≡ n
  pub inside : at < n
  pub cells : (k : ℕ) → k < n → get_or buf (slot n at k) 0 ≡ get_or hist k 0
  pub total : sum_from n 0 buf ≡ recent n hist

abbrev pub bump : (n at : ℕ) → ℕ
bump n at = if leb n (at + 1) then 0 else at + 1

slot-newest : (n at : ℕ) → at < n → slot n (bump n at) 0 ≡ at
slot-newest n at lt = ground arith

slot-older : (n at k : ℕ) → at < n → k + 1 < n → slot n (bump n at) (suc k) ≡ slot n at k
slot-older n at k lt lt' = ground arith

slot-apart : (n at k : ℕ) → at < n → k + 1 < n → at ≢ slot n at k
slot-apart n at k lt lt' e = ground arith

slot-oldest : (n at : ℕ) → at < suc n → slot (suc n) at n ≡ at
slot-oldest n at lt = ground arith

-- A sample takes the place of the oldest one.
pub IsRing-store :
    (n at v : ℕ) (buf hist : List ℕ)
    → IsRing n at buf hist
    → IsRing n (bump n at) (set buf at v) (v ∷ hist)
unfolding recent
IsRing-store zero at v buf hist r = absurd (omega (arith, r.inside))
IsRing-store (suc n) at v buf hist r = record {
  size = length-set buf at v ∙ r.size;
  inside = ground (arith, r.inside);
  cells = cells;
  total = omega (arith, changed, recent-cons n v hist, oldest, r.total);
}
  where
    changed : sum_from (suc n) 0 (set buf at v) + get_or buf at 0 ≡ sum_from (suc n) 0 buf + v
    changed =
        sum_from-set (suc n) 0 at v buf (omega arith) (omega (arith, r.inside))
          (omega (arith, r.inside, r.size))

    oldest : get_or buf at 0 ≡ get_or hist n 0
    oldest = ap (λ i. get_or buf i 0) (sym (slot-oldest n at r.inside)) ∙ r.cells n (omega arith)

    cells :
        (k : ℕ)
        → k < suc n
        → get_or (set buf at v) (slot (suc n) (bump (suc n) at) k) 0 ≡ get_or (v ∷ hist) k 0
    cells zero lt =
        ap (λ i. get_or (set buf at v) i 0) (slot-newest (suc n) at r.inside)
        ∙ get_or-set_self buf at v 0 (omega (arith, r.inside, r.size))
    cells (suc k) lt =
        ap (λ i. get_or (set buf at v) i 0) (slot-older (suc n) at k r.inside (omega arith))
        ∙ get_or-set_ne buf at (slot (suc n) at k) v 0
            (slot-apart (suc n) at k r.inside (omega arith))
        ∙ r.cells k (omega arith)

recent_none : (m : ℕ) → recent m [] ≡ 0
unfolding recent
recent_none zero = refl
recent_none (suc m) = omega (arith, recent_none m)

pub cleared-IsRing : (n : ℕ) → 0 < n → IsRing n 0 (replicate n 0) []
cleared-IsRing n lt = record {
  size = length-replicate n 0;
  inside = lt;
  cells = λ k lt'. get_or-zeros n _;
  total = sum_from-replicate n 0 n ∙ sym (recent_none n);
}

-- What the read's loop makes of a ring of ten-bit samples.
pub add_up-IsRing :
    (n at : ℕ) (buf hist : List ℕ)
    → IsRing n at buf hist
    → ((k : ℕ) → get_or hist k 0 ≤ 1023)
    → n ≤ 2 ^ 16
    → add_up n 0 buf 0 ≡ some (recent n hist)
add_up-IsRing n at buf hist r ten_bits le =
    add_up-sum_from n 0 0 buf (omega (arith, r.size))
      (omega (arith, r.total, recent_bound n 1023 hist ten_bits))
    ∙ ap some (omega (arith, r.total))
