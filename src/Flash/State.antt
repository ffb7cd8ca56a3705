-- ===== src/Flash/State.antt =====
-- The state of flash/at91flash.c (its static variables and one open file), and its handlers as
-- commands on that state which may return early.
use at91_sam9x25_drivers.Prelude.{ℕ, ◌+◌, ◌-◌, Bool, List, if◌then◌else◌}
use at91_sam9x25_drivers.Kernel.{Ret}

-- `bbt`, `ebcnt`, `file->f_pos`, and how many blocks of kernel memory the running handler holds.
pub record Flash (W : Type 0) : Type 0 where
  pub world : W
  pub bbt : List ℕ
  pub ebcnt : ℕ
  pub pos : ℕ
  pub held : ℕ

-- `next` goes on with the handler, `returned` is its `return`; `fault` is an access outside an
-- array or through NULL, `hang` a loop that has used up its fuel.
pub data Out (W A : Type 0) : Type 0 where
  next : A → Flash W → Out W A
  returned : Ret → Flash W → Out W A
  fault : Out W A
  hang : Out W A

abbrev pub Action : Type 0 → Type 0 → Type 0
Action W A = Flash W → Out W A

module _ {W A B : Type 0} where
  abbrev pub and_then : Out W A → (A → Action W B) → Out W B
  and_then (next a s) k = k a s
  and_then (returned r s) k = returned r s
  and_then fault k = fault
  and_then hang k = hang

  infixl 5 ◌>>=◌ ◌>>◌
  abbrev pub ◌>>=◌ : Action W A → (A → Action W B) → Action W B
  (m >>= k) s = and_then (m s) k

  abbrev pub ◌>>◌ : Action W A → Action W B → Action W B
  (m >> k) s = and_then (m s) (λ _. k)

module _ {W A : Type 0} where
  abbrev pub pure : A → Action W A
  pure a s = next a s

  -- `return r;`
  abbrev pub leave : Ret → Action W A
  leave r s = returned r s

  abbrev pub crash : Action W A
  crash s = fault

  abbrev pub gets : (Flash W → A) → Action W A
  gets f s = next (f s) s

module _ {W : Type 0} where
  abbrev pub leave_if : Bool → Ret → Action W (Unit {0})
  leave_if c r s = if c then returned r s else next tt s

  -- `*ppos += n`
  abbrev pub advance : ℕ → Action W (Unit {0})
  advance n s = next tt (record s { pos = s.pos + n })

  abbrev pub kfree : Action W (Unit {0})
  kfree s = next tt (record s { held = s.held - 1 })

  -- a handler that is called from another one: its result is a value there
  abbrev pub caught : Out W (Unit {0}) → Out W Ret
  caught (next a s) = next (Ret.val 0) s
  caught (returned r s) = next r s
  caught fault = fault
  caught hang = hang

  abbrev pub call : Action W (Unit {0}) → Action W Ret
  call m s = caught (m s)
