-- ===== src/Programs/AdcTest.antt =====
-- ADC_test of hwtest/hwtest.c and at91adc/adc_demo.c, on the converter's driver.
pub mod Shows
mod Tests
use at91_sam9x25_drivers.Prelude.{
  ◌>>=◌, ℕ, zero, suc, ◌+◌, ◌*◌, ◌/◌, ◌%◌, Bool, true, false, Option, none, some, List, [], ◌∷◌,
  ltb, ◌==◌, if◌then◌else◌,
}
use at91_sam9x25_drivers.Adc.{Adc, at91adc_read}

-- The integer next to `a / b`, the even one if two are.
unfoldable pub nearest : (a b : ℕ) → ℕ
nearest a b =
    let q = a / b in
    let rest = 2 * (a % b) in if ltb rest b then q else if ltb b rest then q + 1 else q + q % 2

-- What `%f` prints of `(float)v/1024.0*3.0`, in millionths. The product is exact, since it is a
-- multiple of 1/1024 below 192.
unfoldable pub microvolts : (v : ℕ) → ℕ
unfolding nearest
microvolts v = nearest (v * 3000000) 1024

-- The lines of the loop from `i` on, the number of a channel and its voltage.
unfoldable pub lines : (i : ℕ) → List ℕ → List (ℕ × ℕ)
lines i [] = []
lines i (v ∷ vs) = (i, microvolts v) ∷ lines (i + 1) vs

-- From the result of `open` on: `none` is a fault in the driver, and `some none` that the device
-- cannot be opened. The result of `read` is not looked at; its copy to the program's own buffer of
-- eleven values succeeds.
unfoldable pub adc_test : (opened : Bool) → Adc → Option (Option (List (ℕ × ℕ)))
adc_test false s = some none
adc_test true s = do
  (ret, adcdatabuf) ← at91adc_read (λ _. false) 22 s
  some (some (lines 0 adcdatabuf))

-- `main` of at91adc/adc_demo.c, which does the same.
unfoldable pub adc_demo : (opened : Bool) → Adc → Option (Option (List (ℕ × ℕ)))
adc_demo false s = some none
adc_demo true s = do
  (ret, adcdatabuf) ← at91adc_read (λ _. false) 22 s
  some (some (lines 0 adcdatabuf))
