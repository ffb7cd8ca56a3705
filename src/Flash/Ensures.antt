-- ===== src/Flash/Ensures.antt =====
-- What a command of the flash driver guarantees: neither a fault nor an endless loop, `Q` of the
-- value and state it goes on with, and `P` of the result and state it returns with.
use at91_sam9x25_drivers.Prelude.{◌≡◌, refl}
use at91_sam9x25_drivers.Kernel.{Ret}
use at91_sam9x25_drivers.Flash.State.{
  Flash, Out, next, returned, fault, hang, Action, and_then, call, caught,
}

module _ {W : Type 0} where
  abbrev pub Ensures :
      {A : Type 0} → (A → Flash W → Type 0) → (Ret → Flash W → Type 0) → Out W A → Type 0
  Ensures Q P (next a s) = Q a s
  Ensures Q P (returned r s) = P r s
  Ensures Q P fault = ⊥
  Ensures Q P hang = ⊥

  pub bind-Ensures :
      {A B : Type 0} (Q : A → Flash W → Type 0) (R : B → Flash W → Type 0)
      (P : Ret → Flash W → Type 0) (m : Out W A) (k : A → Action W B)
      → Ensures Q P m
      → ((a : A) (s : Flash W) → Q a s → Ensures R P (k a s))
      → Ensures R P (and_then m k)
  bind-Ensures Q R P (next a s) k q h = h a s q
  bind-Ensures Q R P (returned r s) k q h = q
  bind-Ensures Q R P fault k q h = absurd q
  bind-Ensures Q R P hang k q h = absurd q

  pub map-Ensures :
      {A : Type 0} (Q Q' : A → Flash W → Type 0) (P : Ret → Flash W → Type 0) (m : Out W A)
      → ((a : A) (s : Flash W) → Q a s → Q' a s)
      → Ensures Q P m
      → Ensures Q' P m
  map-Ensures Q Q' P (next a s) h q = h a s q
  map-Ensures Q Q' P (returned r s) h q = q
  map-Ensures Q Q' P fault h q = q
  map-Ensures Q Q' P hang h q = q

  -- A handler ends by a `return`.
  abbrev pub Returns : (Ret → Flash W → Type 0) → Out W (Unit {0}) → Type 0
  Returns P = Ensures (λ _ _. ⊥) P

  pub call-Ensures :
      (P : Ret → Flash W → Type 0) (m : Action W (Unit {0})) (s : Flash W)
      → Returns P (m s)
      → Ensures P (λ _ _. ⊥) (call m s)
  call-Ensures P m s h = go (m s) h
    where
      go : (o : Out W (Unit {0})) → Returns P o → Ensures P (λ _ _. ⊥) (caught o)
      go (next a s') h = absurd h
      go (returned r s') h = h
      go fault h = h
      go hang h = h

  -- A command that never returns early meets every promise for that case.
  pub onwards-Ensures :
      {A : Type 0} (Q : A → Flash W → Type 0) (P : Ret → Flash W → Type 0) (m : Out W A)
      → Ensures Q (λ _ _. ⊥) m
      → Ensures Q P m
  onwards-Ensures Q P (next a s) q = q
  onwards-Ensures Q P (returned r s) q = absurd q
  onwards-Ensures Q P fault q = q
  onwards-Ensures Q P hang q = q

  -- Such a command that guarantees something goes on.
  pub onwards-next :
      {A : Type 0} (Q : A → Flash W → Type 0) (m : Out W A)
      → Ensures Q (λ _ _. ⊥) m
      → (a : A) × (s : Flash W) × (m ≡ next a s) × Q a s
  onwards-next Q (next a s) q = (a, s, refl, q)
  onwards-next Q (returned r s) q = absurd q
  onwards-next Q fault q = absurd q
  onwards-next Q hang q = absurd q
