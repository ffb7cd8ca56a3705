-- ===== src/Mc323/Pulses.antt =====
-- What the modem sees of the commands to cdma-mc323/at91mc323.c.
use at91_sam9x25_drivers.Prelude.{
  ℕ, zero, suc, ◌+◌, ◌≡◌, refl, ap, Bool, true, false, List, [], ◌∷◌, ◌++◌, replicate, ◌==◌,
  if◌then◌else◌, arith,
}
use at91_sam9x25_drivers.Kernel.{val}
use at91_sam9x25_drivers.Mc323.{
  Line, rst, poweron, wakeup, ring, Step, output, set_high, set_low, mdelay, at91mc323_ioctl,
  at91mc323_init, commands,
}

abbrev pub is_line : Line → Line → Bool
is_line rst rst = true
is_line poweron poweron = true
is_line wakeup wakeup = true
is_line ring ring = true
is_line _ _ = false

-- The lengths of the pulses on a line, that is of the times for which it is low. `low` is whether it
-- is low now, and `t` for how long it has been so.
abbrev pub pulses : Line → (low : Bool) (t : ℕ) → List Step → List ℕ
pulses l low t [] = if low then t ∷ [] else []
pulses l low t (output m ∷ es) =
    let ended = pulses l false 0 es in
    if is_line l m then (if low then t ∷ ended else ended) else pulses l low t es
pulses l low t (set_low m ∷ es) =
    let other = pulses l low t es in
    if is_line l m then pulses l true (if low then t else 0) es else other
pulses l low t (set_high m ∷ es) =
    let ended = pulses l false 0 es in
    if is_line l m then (if low then t ∷ ended else ended) else pulses l low t es
pulses l low t (mdelay n ∷ es) = pulses l low (if low then t + n else t) es

-- How many of the commands are `c`.
abbrev pub count : ℕ → List ℕ → ℕ
count c [] = 0
count c (d ∷ ds) = let rest = count c ds in if c == d then suc rest else rest

commands-pulses :
    (cs : List ℕ)
    → (pulses poweron false 0 (commands cs) ≡ replicate (count 0 cs) 200)
      × (pulses rst false 0 (commands cs) ≡ replicate (count 3 cs) 20)
      × (pulses wakeup false 0 (commands cs) ≡ [])
      × (pulses ring false 0 (commands cs) ≡ [])
unfolding commands at91mc323_ioctl
commands-pulses [] = (refl, refl, refl, refl)
commands-pulses (zero ∷ cs) =
    let (p, r, w, g) = commands-pulses cs in (ap (λ ts. 200 ∷ ts) p, r, w, g)
commands-pulses (suc zero ∷ cs) = commands-pulses cs
commands-pulses (suc (suc zero) ∷ cs) = commands-pulses cs
commands-pulses (suc (suc (suc zero)) ∷ cs) =
    let (p, r, w, g) = commands-pulses cs in (p, ap (λ ts. 20 ∷ ts) r, w, g)
commands-pulses (suc (suc (suc (suc c))) ∷ cs) =
    let not_0 : (0 == suc (suc (suc (suc c)))) ≡ false = ground arith in
    let not_3 : (3 == suc (suc (suc (suc c)))) ≡ false = ground arith in
    rw (not_0, not_3) (commands-pulses cs)

-- Once loaded, whatever commands follow, the modem has got a pulse of 200 ms on the power line for
-- the loading and for each command 0 and a pulse of 20 ms on the reset line for each command 3, none
-- on the two other lines, and no line stays low.
pub loaded-pulses :
    (cs : List ℕ)
    → (pulses poweron false 0 ((at91mc323_init (val 0)).1 ++ commands cs)
        ≡ replicate (suc (count 0 cs)) 200)
      × (pulses rst false 0 ((at91mc323_init (val 0)).1 ++ commands cs) ≡ replicate (count 3 cs) 20)
      × (pulses wakeup false 0 ((at91mc323_init (val 0)).1 ++ commands cs) ≡ [])
      × (pulses ring false 0 ((at91mc323_init (val 0)).1 ++ commands cs) ≡ [])
unfolding at91mc323_init
loaded-pulses cs = let (p, r, w, g) = commands-pulses cs in (ap (λ ts. 200 ∷ ts) p, r, w, g)
