-- ===== src/Dashboard/Indicators.antt =====
-- cmd/dashboard/backtest.go: the indicators. A slice that a loop fills from the left is built from the
-- left: the cells that are left zero, then those of the loop. `none` is a panic.
pub mod Bounds
pub mod Causal
pub mod Smoothed
use crypto_divergence_engine.Prelude.{
  ℕ, zero, suc, ◌+◌, ◌-◌, ◌||◌, Option, none, some, List, [], ◌∷◌, ◌++◌, foldl, if◌then◌else◌, ltb,
  ◌==◌, length, take, drop, replicate,
}
use crypto_divergence_engine.Go.Float.{Float, gt}
use crypto_divergence_engine.Go.Checked.{◌>>=◌, ◌>>◌, at, fill}

-- a cell of the three slices of computeBollinger
pub record Band (F : Type 0) : Type 0 where
  pub upper : F
  pub middle : F
  pub lower : F

module _ {F : Type 0} ⦃fl : Float F⦄ where
  -- for i from i, `count` times: sum += prices[i]
  unfoldable pub sum_range : List F → ℕ → ℕ → F → Option F
  sum_range prices i zero sum = some sum
  sum_range prices i (suc count) sum = do
    p ← at prices i
    sum_range prices (i + 1) count (fl.add sum p)

  unfoldable pub bar_sma : List F → ℕ → ℕ → Option F
  bar_sma prices end period = if ltb end period then some (fl.of_nat 0) else do
    sum ← sum_range prices (end - period) period (fl.of_nat 0)
    some (fl.div sum (fl.of_nat period))

  -- the second loop of computeEMA, from the cell before and the prices that are left
  unfoldable pub ema_loop : F → F → List F → List F
  ema_loop k prev [] = []
  ema_loop k prev (p ∷ ps) =
      let e = fl.add (fl.mul p k) (fl.mul prev (fl.sub (fl.of_nat 1) k)) in e ∷ ema_loop k e ps

  unfoldable pub compute_ema : List F → ℕ → Option (List F)
  compute_ema prices period =
      let n = length prices in
      if ltb n period
      then some (replicate n (fl.of_nat 0))
      -- ema[-1]
      else if period == 0
      then none
      else let k = fl.div (fl.of_nat 2) (fl.of_nat (period + 1)) in
        let seed = foldl fl.add (fl.of_nat 0) (take period prices) in
        let first = fl.div seed (fl.of_nat period) in
        some (replicate (period - 1) (fl.of_nat 0) ++ first ∷ ema_loop k first (drop period prices))

  -- the gain and the loss of a difference
  abbrev pub gain_of : F → F
  gain_of d = if gt d (fl.of_nat 0) then d else fl.of_nat 0

  abbrev pub loss_of : F → F
  loss_of d = if gt d (fl.of_nat 0) then fl.of_nat 0 else fl.neg d

  -- the first loop of computeRSI, over the prices after `prev`
  unfoldable pub sum_changes : F → List F → F → F → F × F
  sum_changes prev [] gain loss = (gain, loss)
  sum_changes prev (p ∷ ps) gain loss =
      let d = fl.sub p prev in
      let up = gt d (fl.of_nat 0) in
      sum_changes p ps (if up then fl.add gain d else gain) (if up then loss else fl.sub loss d)

  unfoldable pub to_rsi : F → F → F
  to_rsi g l =
      if fl.eq l (fl.of_nat 0)
      then fl.of_nat 100
      else fl.sub (fl.of_nat 100) (fl.div (fl.of_nat 100) (fl.add (fl.of_nat 1) (fl.div g l)))

  -- float64(period-1)
  abbrev pub less_one : ℕ → F
  less_one period = if period == 0 then fl.neg (fl.of_nat 1) else fl.of_nat (period - 1)

  -- the second loop, over the prices after `prev`
  unfoldable pub rsi_loop : ℕ → F → List F → F → F → List F
  rsi_loop period prev [] gain loss = []
  rsi_loop period prev (p ∷ ps) gain loss =
      let d = fl.sub p prev in
      let less = less_one period in
      let gain' = fl.div (fl.add (fl.mul gain less) (gain_of d)) (fl.of_nat period) in
      let loss' = fl.div (fl.add (fl.mul loss less) (loss_of d)) (fl.of_nat period) in
      to_rsi gain' loss' ∷ rsi_loop period p ps gain' loss'

  -- from the end of the first loop on, with prices[period] and the prices after it
  unfoldable pub rsi_cells : ℕ → F × F → List F → List F
  rsi_cells period (gain, loss) [] = []
  rsi_cells period (gain, loss) (last ∷ later) =
      let gain' = fl.div gain (fl.of_nat period) in
      let loss' = fl.div loss (fl.of_nat period) in
      to_rsi gain' loss' ∷ rsi_loop period last later gain' loss'

  unfoldable pub compute_rsi : List F → ℕ → List F
  compute_rsi prices period =
      let n = length prices in
      if ltb n (period + 1) then replicate n (fl.of_nat 0) else elim prices [
        | [] ↦ []
        | p ∷ ps ↦
            replicate period (fl.of_nat 0)
            ++ rsi_cells period (sum_changes p (take period ps) (fl.of_nat 0) (fl.of_nat 0))
                (drop period (p ∷ ps))
      ]

  -- for j from j, `count` times: variance += (prices[j]-sma)^2
  unfoldable pub variance_loop : List F → F → ℕ → ℕ → F → Option F
  variance_loop prices sma j zero variance = some variance
  variance_loop prices sma j (suc count) variance = do
    p ← at prices j
    variance_loop prices sma (j + 1) count (fl.add variance (fl.mul (fl.sub p sma) (fl.sub p sma)))

  -- the body of the loop of computeBollinger
  unfoldable pub bollinger_cell : List F → ℕ → F → ℕ → Option (Band F)
  bollinger_cell prices period std_devs i = do
    sma ← bar_sma prices (i + 1) period
    variance ← variance_loop prices sma (i + 1 - period) period (fl.of_nat 0)
    let std = fl.sqrt (fl.div variance (fl.of_nat period))
    some (record {
      upper = fl.add sma (fl.mul std_devs std);
      middle = sma;
      lower = fl.sub sma (fl.mul std_devs std);
    })

  -- the three slices as one of triples
  unfoldable pub compute_bollinger : List F → ℕ → F → Option (List (Band F))
  compute_bollinger prices period std_devs =
      let n = length prices in
      let none_yet : Band F = record {
        upper = fl.of_nat 0;
        middle = fl.of_nat 0;
        lower = fl.of_nat 0;
      } in
      -- middle[-1]
      if period == 0 then none else if ltb n period then some (replicate n none_yet) else do
        cells ← fill (bollinger_cell prices period std_devs) (period - 1) (n - (period - 1))
        some (replicate (period - 1) none_yet ++ cells)

  -- the two loops of btPearson, over the pairs of the two slices
  unfoldable pub sum_pairs : List (F × F) → F → F → F × F
  sum_pairs [] x y = (x, y)
  sum_pairs ((a, b) ∷ rest) x y = sum_pairs rest (fl.add x a) (fl.add y b)

  unfoldable pub sum_products : F → F → List (F × F) → F × F × F → F × F × F
  sum_products mean_x mean_y [] sums = sums
  sum_products mean_x mean_y ((a, b) ∷ rest) (num, d_x, d_y) =
      let dx = fl.sub a mean_x in
      let dy = fl.sub b mean_y in
      sum_products mean_x mean_y rest
        (fl.add num (fl.mul dx dy), fl.add d_x (fl.mul dx dx), fl.add d_y (fl.mul dy dy))

  unfoldable pub bt_pearson : List (F × F) → F
  bt_pearson pairs =
      let n = length pairs in
      let z = fl.of_nat 0 in
      let (sum_x, sum_y) = sum_pairs pairs z z in
      let (num, d_x, d_y) =
        sum_products (fl.div sum_x (fl.of_nat n)) (fl.div sum_y (fl.of_nat n)) pairs (z, z, z) in
      if ltb n 2
      then z
      else if fl.eq d_x z || fl.eq d_y z
      then z
      else fl.div num (fl.sqrt (fl.mul d_x d_y))
