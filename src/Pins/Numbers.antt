-- ===== src/Pins/Numbers.antt =====
-- Which pins the numbers of `get_port_pin` tell apart.
use at91_sam9x25_drivers.Prelude.{ℕ, zero, suc, ◌+◌, ◌*◌, ◌<◌, ◌≡◌, refl, sym, ap, ◌∙◌, ◌↔◌, arith}
use at91_sam9x25_drivers.Prelude.Int.{pos}
use at91_sam9x25_drivers.Pins.{get_port_pin}

pub pos_inj : {a b : ℕ} → pos a ≡ pos b → a ≡ b
pos_inj e = cc

pub get_port_pin_lem :
    (base port pin : ℕ)
    → port < 4
    → get_port_pin base (pos port) (pos pin) ≡ pos (pin + (base + 32 * port))
unfolding get_port_pin
get_port_pin_lem base zero pin lt = refl
get_port_pin_lem base (suc zero) pin lt = refl
get_port_pin_lem base (suc (suc zero)) pin lt = refl
get_port_pin_lem base (suc (suc (suc zero))) pin lt = refl
get_port_pin_lem base (suc (suc (suc (suc n)))) pin lt = absurd (omega arith)

-- Two pins of the four ports have the same number exactly if they lie at the same place with 32 pins
-- to a port: pins 0 to 31 are told apart, and a pin of 32 or more is not refused but is one of a
-- later port.
pub get_port_pin-eq :
    (base port pin port' pin' : ℕ)
    → port < 4
    → port' < 4
    → (get_port_pin base (pos port) (pos pin) ≡ get_port_pin base (pos port') (pos pin'))
      ↔ (pin + 32 * port ≡ pin' + 32 * port')
get_port_pin-eq base port pin port' pin' l l' = (
  λ e.
      let same : pin + (base + 32 * port) ≡ pin' + (base + 32 * port') =
        pos_inj
          (sym (get_port_pin_lem base port pin l) ∙ e ∙ get_port_pin_lem base port' pin' l') in
      omega arith,
  λ e.
      get_port_pin_lem base port pin l
      ∙ ap pos (omega arith)
      ∙ sym (get_port_pin_lem base port' pin' l'),
)

-- So pins 0 to 31 of the four ports have different numbers.
pub get_port_pin-separates :
    (base port pin port' pin' : ℕ)
    → port < 4
    → port' < 4
    → pin < 32
    → pin' < 32
    → get_port_pin base (pos port) (pos pin) ≡ get_port_pin base (pos port') (pos pin')
    → (port ≡ port') × (pin ≡ pin')
get_port_pin-separates base port pin port' pin' l l' h h' e =
    let same = (get_port_pin-eq base port pin port' pin' l l').0 e in (omega arith, omega arith)
