-- ===== src/Go/Float.antt =====
-- float64 as an interface. The libraries have no floating-point numbers, so the development takes a
-- carrier with the operations that the code uses.
use crypto_divergence_engine.Prelude.{ℕ, ◌/◌, ◌%◌, Bool}
use crypto_divergence_engine.Go.Text.{Str}

pub record Float (F : Type 0) : Type 0 where
  -- float64(n) and the literals without a fraction
  pub of_nat : ℕ → F
  -- the literal m / 10^k
  pub decimal : ℕ → ℕ → F
  pub add : F → F → F
  pub sub : F → F → F
  pub mul : F → F → F
  pub div : F → F → F
  pub neg : F → F
  -- math.Sqrt, math.Log
  pub sqrt : F → F
  pub log : F → F
  -- x < y, x <= y and x == y, all false on NaN
  pub lt : F → F → Bool
  pub le : F → F → Bool
  pub eq : F → F → Bool
  -- fmt's %.kf
  pub fixed : ℕ → F → Str

module _ {F : Type 0} ⦃fl : Float F⦄ where
  -- d.Seconds() of a duration constant
  unfoldable pub seconds : ℕ → F
  seconds d =
      fl.add (fl.of_nat (d / 1_000_000_000))
        (fl.div (fl.of_nat (d % 1_000_000_000)) (fl.of_nat 1_000_000_000))

  -- x > y and x >= y
  abbrev pub gt : F → F → Bool
  gt x y = fl.lt y x

  abbrev pub ge : F → F → Bool
  ge x y = fl.le y x
