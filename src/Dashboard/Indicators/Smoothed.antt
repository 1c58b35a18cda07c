-- ===== src/Dashboard/Indicators/Smoothed.antt =====
-- cmd/dashboard/backtest.go: computeEMA and computeRSI on prices with more prices after them.
use crypto_divergence_engine.Prelude.{
  ℕ, ◌+◌, ◌-◌, ◌<◌, ◌≤◌, ◌≡◌, refl, sym, ap, ap₂, ◌∙◌, true, false, Option, some, List, [], ◌∷◌,
  ◌++◌, append_assoc, append-nil, length-drop, arith, length, length-append, length-replicate,
  replicate, take, drop, drop-append, ltb, ◌==◌, Bool-cases, inl, inr, foldl,
}
use mathlib.Core.Path.{subst}
use crypto_divergence_engine.Go.Float.{Float}
use crypto_divergence_engine.Go.Checked.{at-append}
use crypto_divergence_engine.Dashboard.Indicators.{
  ema_loop, compute_ema, rsi_loop, rsi_cells, sum_changes, compute_rsi, less_one, gain_of, loss_of,
  to_rsi,
}
use crypto_divergence_engine.Dashboard.Indicators.Bounds.{length-compute_rsi, length-ema_loop}
use crypto_divergence_engine.Dashboard.Indicators.Causal.{
  Agrees, Keeps, Keeps-by, append-Agrees, take-append, at-replicate,
}

module _ {F : Type 0} ⦃fl : Float F⦄ where
  ema_loop-append :
      (k prev : F) (us vs : List F)
      → (t : List F) × (ema_loop k prev (us ++ vs) ≡ ema_loop k prev us ++ t)
  unfolding ema_loop
  ema_loop-append k prev [] vs = (ema_loop k prev vs, refl)
  ema_loop-append k prev (u ∷ us) vs =
      let e = fl.add (fl.mul u k) (fl.mul prev (fl.sub (fl.of_nat 1) k)) in
      let (t, same) = ema_loop-append k e us vs in (t, ap (λ l. e ∷ l) same)

  rsi_loop-append :
      (period : ℕ) (prev : F) (us vs : List F) (gain loss : F)
      → (t : List F) × (rsi_loop period prev (us ++ vs) gain loss
          ≡ rsi_loop period prev us gain loss ++ t)
  unfolding rsi_loop
  rsi_loop-append period prev [] vs gain loss = (rsi_loop period prev vs gain loss, refl)
  rsi_loop-append period prev (u ∷ us) vs gain loss =
      let d = fl.sub u prev in
      let less = less_one period in
      let gain' = fl.div (fl.add (fl.mul gain less) (gain_of d)) (fl.of_nat period) in
      let loss' = fl.div (fl.add (fl.mul loss less) (loss_of d)) (fl.of_nat period) in
      let (t, same) = rsi_loop-append period u us vs gain' loss' in
      (t, ap (λ l. to_rsi gain' loss' ∷ l) same)

  rsi_cells-append :
      (period : ℕ) (sums : F × F) (us vs : List F)
      → (t : List F) × (rsi_cells period sums (us ++ vs) ≡ rsi_cells period sums us ++ t)
  unfolding rsi_cells
  rsi_cells-append period (gain, loss) [] vs = (rsi_cells period (gain, loss) vs, refl)
  rsi_cells-append period (gain, loss) (u ∷ us) vs =
      let gain' = fl.div gain (fl.of_nat period) in
      let loss' = fl.div loss (fl.of_nat period) in
      let (t, same) = rsi_loop-append period u us vs gain' loss' in
      (t, ap (λ l. to_rsi gain' loss' ∷ l) same)

  -- the smoothing factor and the first average of computeEMA
  abbrev factor : ℕ → F
  factor period = fl.div (fl.of_nat 2) (fl.of_nat (period + 1))

  abbrev first_average : List F → ℕ → F
  first_average prices period =
      fl.div (foldl fl.add (fl.of_nat 0) (take period prices)) (fl.of_nat period)

  compute_ema-long :
      (prices : List F) (period : ℕ)
      → 0 < period
      → period ≤ length prices
      → compute_ema prices period
        ≡ some (
            replicate (period - 1) (fl.of_nat 0)
            ++ first_average prices period
              ∷ ema_loop (factor period) (first_average prices period) (drop period prices))
  unfolding compute_ema
  compute_ema-long prices period some_bars enough = rw (fits, not_zero) refl
    where
      not_zero : (period == 0) ≡ false
      not_zero = ground (arith, some_bars)

      fits : ltb (length prices) period ≡ false
      fits = ground (arith, enough)

  compute_ema-short :
      (prices : List F) (period : ℕ)
      → length prices < period
      → compute_ema prices period ≡ some (replicate (length prices) (fl.of_nat 0))
  unfolding compute_ema
  compute_ema-short prices period few = rw fits refl
    where
      fits : ltb (length prices) period ≡ true
      fits = ground (arith, few)

  compute_rsi-long :
      (p : F) (ps : List F) (period : ℕ)
      → period ≤ length ps
      → compute_rsi (p ∷ ps) period
        ≡ replicate period (fl.of_nat 0)
          ++ rsi_cells period
              (sum_changes p (take period ps) (fl.of_nat 0) (fl.of_nat 0))
              (drop period (p ∷ ps))
  unfolding compute_rsi
  compute_rsi-long p ps period enough = rw fits refl
    where
      fits : ltb (length (p ∷ ps)) (period + 1) ≡ false
      fits = ground (arith, enough)

  pub compute_rsi-Agrees :
      (xs ys : List F) (period : ℕ)
      → period < length xs
      → Agrees (length xs) (compute_rsi xs period) (compute_rsi (xs ++ ys) period)
  compute_rsi-Agrees [] ys period enough = absurd (omega arith)
  compute_rsi-Agrees (p ∷ ps) ys period enough =
      subst (λ l. Agrees (length (p ∷ ps)) (compute_rsi (p ∷ ps) period) l) (sym longer)
        (append-Agrees (p ∷ ps) ys (compute_rsi (p ∷ ps) period) tail.0
          (length-compute_rsi (p ∷ ps) period))
    where
      sums : F × F
      sums = sum_changes p (take period ps) (fl.of_nat 0) (fl.of_nat 0)

      tail :
          (t : List F) × (rsi_cells period sums (drop period (p ∷ ps) ++ ys)
            ≡ rsi_cells period sums (drop period (p ∷ ps)) ++ t)
      tail = rsi_cells-append period sums (drop period (p ∷ ps)) ys

      longer : compute_rsi (p ∷ ps ++ ys) period ≡ compute_rsi (p ∷ ps) period ++ tail.0
      longer =
          compute_rsi-long p (ps ++ ys) period (omega (arith, enough, length-append {0} ps ys))
          ∙ rw
              (
                take-append period ps ys (omega (arith, enough)),
                drop-append period (p ∷ ps) ys (omega (arith, enough)),
                tail.1,
              )
              (sym (
                append_assoc (replicate period (fl.of_nat 0))
                  (rsi_cells period sums (drop period (p ∷ ps))) tail.0))
          ∙ ap (λ l. l ++ tail.0) (sym (compute_rsi-long p ps period (omega (arith, enough))))

zeros-Agrees :
    {A : Type 0} (z : A) (n k : ℕ) (ws : List A)
    → n ≤ k
    → Agrees n (replicate n z) (replicate k z ++ ws)
zeros-Agrees z n k ws le i lt =
    at-append (replicate k z) ws i (omega (arith, length-replicate k z, le, lt))
    ∙ at-replicate k z i (omega (arith, le, lt))
    ∙ sym (at-replicate n z i lt)

module _ {F : Type 0} ⦃fl : Float F⦄ (xs ys : List F) (period : ℕ) (some_bars : 0 < period) where
  compute_ema-Keeps_long :
      period ≤ length xs → Keeps xs ys (compute_ema xs period) (compute_ema (xs ++ ys) period)
  compute_ema-Keeps_long enough =
      Keeps-by xs ys _ _ _ _ (compute_ema-long xs period some_bars enough) (longer ∙ ap some split)
        (append-Agrees xs ys whole tail.0 size)
    where
      first : F
      first = first_average xs period

      whole : List F
      whole =
          replicate (period - 1) (fl.of_nat 0)
          ++ first ∷ ema_loop (factor period) first (drop period xs)

      tail :
          (t : List F) × (ema_loop (factor period) first (drop period xs ++ ys)
            ≡ ema_loop (factor period) first (drop period xs) ++ t)
      tail = ema_loop-append (factor period) first (drop period xs) ys

      size : length whole ≡ length xs
      size = omega (
        arith,
        enough,
        some_bars,
        length-append {0} (replicate (period - 1) (fl.of_nat 0))
            (first ∷ ema_loop (factor period) first (drop period xs)),
        length-replicate {A = F} (period - 1) (fl.of_nat 0),
        length-ema_loop (factor period) (drop period xs) first,
        length-drop {0} period xs,
      )

      cells : List F → List F → Option (List F)
      cells seeds rest =
          let start = fl.div (foldl fl.add (fl.of_nat 0) seeds) (fl.of_nat period) in
          some (replicate (period - 1) (fl.of_nat 0) ++ start ∷ ema_loop (factor period) start rest)

      longer :
          compute_ema (xs ++ ys) period
          ≡ some (
              replicate (period - 1) (fl.of_nat 0)
              ++ first ∷ ema_loop (factor period) first (drop period xs ++ ys))
      longer =
          compute_ema-long (xs ++ ys) period some_bars
            (omega (arith, enough, length-append {0} xs ys))
          ∙ ap₂ cells (take-append period xs ys enough) (drop-append period xs ys enough)

      split :
          replicate (period - 1) (fl.of_nat 0)
            ++ first ∷ ema_loop (factor period) first (drop period xs ++ ys)
          ≡ whole ++ tail.0
      split =
          ap (λ l. replicate (period - 1) (fl.of_nat 0) ++ first ∷ l) tail.1
          ∙ sym (append_assoc (replicate (period - 1) (fl.of_nat 0)) _ tail.0)

  compute_ema-Keeps_short :
      length xs < period → Keeps xs ys (compute_ema xs period) (compute_ema (xs ++ ys) period)
  compute_ema-Keeps_short few = elim (Bool-cases (ltb (length (xs ++ ys)) period)) [
    | inl still ↦
        Keeps-by xs ys _ _ _ _ (compute_ema-short xs period few)
          (compute_ema-short (xs ++ ys) period (ground (arith, still))
            ∙ ap some (sym (append-nil (replicate (length (xs ++ ys)) (fl.of_nat 0)))))
          (zeros-Agrees (fl.of_nat 0) (length xs) (length (xs ++ ys)) []
            (omega (arith, length-append {0} xs ys)))
    | inr enough ↦
        Keeps-by xs ys _ _ _ _ (compute_ema-short xs period few)
          (compute_ema-long (xs ++ ys) period some_bars (ground (arith, enough)))
          (zeros-Agrees (fl.of_nat 0) (length xs) (period - 1) _ (omega (arith, few)))
  ]

  pub compute_ema-Keeps : Keeps xs ys (compute_ema xs period) (compute_ema (xs ++ ys) period)
  compute_ema-Keeps = elim (Bool-cases (ltb (length xs) period)) [
    | inl few ↦ compute_ema-Keeps_short (ground (arith, few))
    | inr enough ↦ compute_ema-Keeps_long (ground (arith, enough))
  ]
