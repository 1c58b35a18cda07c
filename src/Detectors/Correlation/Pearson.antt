-- ===== src/Detectors/Correlation/Pearson.antt =====
-- internal/detectors/correlation.go: pearson, by Welford's algorithm on pairs.
use crypto_divergence_engine.Prelude.{◌||◌, List, [], ◌∷◌, if◌then◌else◌, ltb, length}
use crypto_divergence_engine.Go.Float.{Float}

-- the variables of the loop of pearson
pub record Welford (F : Type 0) : Type 0 where
  pub count : F
  pub mean_x : F
  pub mean_y : F
  pub c : F
  pub m2x : F
  pub m2y : F

module _ {F : Type 0} ⦃fl : Float F⦄ where
  -- one round of the loop of pearson
  unfoldable pub welford_step : Welford F → F → F → Welford F
  welford_step w x y =
      let count = fl.add w.count (fl.of_nat 1) in
      let dx = fl.sub x w.mean_x in
      let mean_x = fl.add w.mean_x (fl.div dx count) in
      let dy = fl.sub y w.mean_y in
      let mean_y = fl.add w.mean_y (fl.div dy count) in
      record {
        count = count;
        mean_x = mean_x;
        mean_y = mean_y;
        c = fl.add w.c (fl.mul dx (fl.sub y mean_y));
        m2x = fl.add w.m2x (fl.mul dx (fl.sub x mean_x));
        m2y = fl.add w.m2y (fl.mul dy (fl.sub y mean_y));
      }

  -- the loop runs to the end of the shorter list
  unfoldable pub welford_loop : List F → List F → Welford F → Welford F
  welford_loop [] ys w = w
  welford_loop (x ∷ xs) [] w = w
  welford_loop (x ∷ xs) (y ∷ ys) w = welford_loop xs ys (welford_step w x y)

  abbrev pub welford_start : Welford F
  welford_start =
      let z = fl.of_nat 0 in record { count = z; mean_x = z; mean_y = z; c = z; m2x = z; m2y = z }

  unfoldable pub pearson : List F → List F → F
  pearson xs ys =
      let n = if ltb (length ys) (length xs) then length ys else length xs in
      let w = welford_loop xs ys welford_start in
      if ltb n 2
      then fl.of_nat 0
      else if fl.le w.m2x (fl.of_nat 0) || fl.le w.m2y (fl.of_nat 0)
      then fl.of_nat 0
      else fl.div w.c (fl.sqrt (fl.mul w.m2x w.m2y))
