-- ===== src/Dashboard/Indicators/Bounds.antt =====
-- cmd/dashboard/backtest.go: the lengths of the indicators' slices.
use crypto_divergence_engine.Prelude.{
  ℕ, zero, suc, ◌+◌, ◌-◌, ◌<◌, ◌≤◌, ◌≡◌, refl, ap, Option, List, [], ◌∷◌, arith, length,
  length-append, length-drop, length-replicate, replicate, take, drop, foldl, ltb, ◌==◌, Bool-cases,
  inl, inr, false,
}
use crypto_divergence_engine.Go.Float.{Float}
use crypto_divergence_engine.Go.Checked.{Returns, returns, bind-Returns, at-Returns, fill}
use crypto_divergence_engine.Dashboard.Indicators.{
  Band, sum_range, bar_sma, ema_loop, compute_ema, rsi_loop, rsi_cells, sum_changes, compute_rsi,
  variance_loop, bollinger_cell, compute_bollinger,
}

-- it returns
abbrev pub Any : {A : Type 0} → A → Type 0
Any a = Unit

pub fill-Returns :
    {A : Type 0}
    → (f : ℕ → Option A) (i count : ℕ) → ((j : ℕ) → i ≤ j → j < i + count → Returns Any (f j))
    → Returns (λ xs. length xs ≡ count) (fill f i count)
unfolding fill
fill-Returns f i zero h = returns refl
fill-Returns f i (suc count) h = bind-Returns (h i (omega arith) (omega arith)) λ x p.
    bind-Returns (fill-Returns f (i + 1) count (λ j a b. h j (omega arith) (omega arith)))
      λ xs e. returns (ap suc e)

module _ {F : Type 0} ⦃fl : Float F⦄ where
  sum_range-Returns :
      (prices : List F) (i count : ℕ) (sum : F)
      → i + count ≤ length prices
      → Returns Any (sum_range prices i count sum)
  unfolding sum_range
  sum_range-Returns prices i zero sum h = returns tt
  sum_range-Returns prices i (suc count) sum h =
      bind-Returns (at-Returns prices i (omega arith))
        λ p e. sum_range-Returns prices (i + 1) count (fl.add sum p) (omega arith)

  pub bar_sma-Returns :
      (prices : List F) (end period : ℕ)
      → end ≤ length prices
      → Returns Any (bar_sma prices end period)
  unfolding bar_sma
  bar_sma-Returns prices end period h = elim (Bool-cases (ltb end period)) [
    | inl e ↦ rw e (returns tt)
    | inr e ↦ rw e (
        bind-Returns (sum_range-Returns prices (end - period) period (fl.of_nat 0) (ground arith))
          λ sum p. returns tt)
  ]

  pub length-ema_loop : (k : F) (ps : List F) (prev : F) → length (ema_loop k prev ps) ≡ length ps
  unfolding ema_loop
  length-ema_loop k [] prev = refl
  length-ema_loop k (p ∷ ps) prev = ap suc (length-ema_loop k ps _)

  pub compute_ema-Returns :
      (prices : List F) (period : ℕ)
      → 0 < period
      → Returns (λ xs. length xs ≡ length prices) (compute_ema prices period)
  unfolding compute_ema
  compute_ema-Returns prices period h = elim (Bool-cases (ltb (length prices) period)) [
    | inl e ↦ rw e (returns (length-replicate {A = F} (length prices) (fl.of_nat 0)))
    | inr e ↦
        let some_bars : (period == 0) ≡ false = ground arith in
        let enough : period ≤ length prices = ground arith in
        rw (e, some_bars)
          (returns (
            omega (
              arith,
              enough,
              length-append {0} (replicate (period - 1) (fl.of_nat 0))
                  (first ∷ ema_loop k first (drop period prices)),
              length-replicate {A = F} (period - 1) (fl.of_nat 0),
              length-ema_loop k (drop period prices) first,
              length-drop {0} period prices,
            )))
  ]
    where
      k : F
      k = fl.div (fl.of_nat 2) (fl.of_nat (period + 1))

      first : F
      first = fl.div (foldl fl.add (fl.of_nat 0) (take period prices)) (fl.of_nat period)

  length-rsi_loop :
      (period : ℕ) (ps : List F) (prev gain loss : F)
      → length (rsi_loop period prev ps gain loss) ≡ length ps
  unfolding rsi_loop
  length-rsi_loop period [] prev gain loss = refl
  length-rsi_loop period (p ∷ ps) prev gain loss = ap suc (length-rsi_loop period ps p _ _)

  length-rsi_cells :
      (period : ℕ) (sums : F × F) (ps : List F) → length (rsi_cells period sums ps) ≡ length ps
  unfolding rsi_cells
  length-rsi_cells period (gain, loss) [] = refl
  length-rsi_cells period (gain, loss) (p ∷ ps) = ap suc (length-rsi_loop period ps p _ _)

  pub length-compute_rsi :
      (prices : List F) (period : ℕ) → length (compute_rsi prices period) ≡ length prices
  unfolding compute_rsi
  length-compute_rsi [] period = ground (arith, length-replicate {A = F} 0 (fl.of_nat 0))
  length-compute_rsi (p ∷ ps) period = elim (Bool-cases (ltb (length (p ∷ ps)) (period + 1))) [
    | inl e ↦ rw e (length-replicate {A = F} (length (p ∷ ps)) (fl.of_nat 0))
    | inr e ↦
        let enough : period ≤ length ps = ground arith in
        rw e (
          omega (
            arith,
            enough,
            length-append {0} (replicate period (fl.of_nat 0))
                (rsi_cells period sums (drop period (p ∷ ps))),
            length-replicate {A = F} period (fl.of_nat 0),
            length-rsi_cells period sums (drop period (p ∷ ps)),
            length-drop {0} period (p ∷ ps),
          ))
  ]
    where
      sums : F × F
      sums = sum_changes p (take period ps) (fl.of_nat 0) (fl.of_nat 0)

  variance_loop-Returns :
      (prices : List F) (sma : F) (j count : ℕ) (variance : F)
      → j + count ≤ length prices
      → Returns Any (variance_loop prices sma j count variance)
  unfolding variance_loop
  variance_loop-Returns prices sma j zero variance h = returns tt
  variance_loop-Returns prices sma j (suc count) variance h =
      bind-Returns (at-Returns prices j (omega arith))
        λ p e. variance_loop-Returns prices sma (j + 1) count _ (omega arith)

  bollinger_cell-Returns :
      (prices : List F) (period : ℕ) (std_devs : F) (i : ℕ)
      → period ≤ i + 1
      → i < length prices
      → Returns Any (bollinger_cell prices period std_devs i)
  unfolding bollinger_cell
  bollinger_cell-Returns prices period std_devs i h lt =
      bind-Returns (bar_sma-Returns prices (i + 1) period (omega arith)) λ sma p.
        bind-Returns (variance_loop-Returns prices sma (i + 1 - period) period _ (omega arith))
          λ variance q. returns tt

  pub compute_bollinger-Returns :
      (prices : List F) (period : ℕ) (std_devs : F)
      → 0 < period
      → Returns (λ xs. length xs ≡ length prices) (compute_bollinger prices period std_devs)
  unfolding compute_bollinger
  compute_bollinger-Returns prices period std_devs h =
      let some_bars : (period == 0) ≡ false = ground arith in
      elim (Bool-cases (ltb (length prices) period)) [
        | inl e ↦
            rw (some_bars, e) (returns (length-replicate {A = Band F} (length prices) none_yet))
        | inr e ↦
            let enough : period ≤ length prices = ground arith in
            rw (some_bars, e)
              (bind-Returns
                (fill-Returns (bollinger_cell prices period std_devs) (period - 1)
                  (length prices - (period - 1))
                  (λ j a b.
                    bollinger_cell-Returns prices period std_devs j (omega arith) (omega arith)))
                λ cells count. returns (
                  omega (
                    arith,
                    count,
                    enough,
                    length-append {0} (replicate (period - 1) none_yet) cells,
                    length-replicate {A = Band F} (period - 1) none_yet,
                  )))
      ]
    where
      none_yet : Band F
      none_yet = record { upper = fl.of_nat 0; middle = fl.of_nat 0; lower = fl.of_nat 0 }
