-- ===== src/Dashboard/Backtest/Safety.antt =====
-- cmd/dashboard/backtest.go: the loops of the four strategies.
use crypto_divergence_engine.Prelude.{
  ℕ, ◌+◌, ◌-◌, ◌<◌, ◌≤◌, ◌≡◌, refl, true, false, List, ◌++◌, arith, length, length-append,
  length-replicate, replicate,
}
use crypto_divergence_engine.Go.Text.{Str}
use crypto_divergence_engine.Go.Time.{Time}
use crypto_divergence_engine.Go.Float.{Float}
use crypto_divergence_engine.Go.Checked.{Returns, returns, bind-Returns, fill}
use crypto_divergence_engine.Dashboard.Indicators.{bar_sma, compute_rsi}
use crypto_divergence_engine.Dashboard.Indicators.Bounds.{
  fill-Returns, bar_sma-Returns, compute_ema-Returns, length-compute_rsi, compute_bollinger-Returns,
}
use crypto_divergence_engine.Dashboard.Backtest.{
  Book, start_book, ema_averages, sma_averages, Strategy, crossover, rsi_mean_reversion,
  bollinger_bands, breakout, bars_needed, warmup, decision, run_strategy,
}
use crypto_divergence_engine.Dashboard.Backtest.Ledger.{Fits, Keeps, bars_loop-Keeps}
use crypto_divergence_engine.Dashboard.Backtest.Moves.{
  crossover_move-Returns, rsi_move-Returns, bollinger_move-Returns, breakout_move-Returns,
}

-- the periods that an average divides by are positive
abbrev pub IsSane : {F : Type 0} → Strategy F → Type 0
IsSane (crossover fast slow true) = (0 < fast) × (0 < slow)
IsSane (crossover fast slow false) = Unit
IsSane (rsi_mean_reversion period oversold overbought) = Unit
IsSane (bollinger_bands period std_devs) = 0 < period
IsSane (breakout lookback hold_bars) = Unit

module _ {F : Type 0} ⦃fl : Float F⦄ where
  ema_averages-Returns :
      (closes : List F) (fast slow : ℕ)
      → 0 < fast
      → 0 < slow
      → Returns
          (λ mas. (length mas.0 ≡ length closes) × (length mas.1 ≡ length closes))
          (ema_averages closes fast slow)
  unfolding ema_averages
  ema_averages-Returns closes fast slow f s =
      bind-Returns (compute_ema-Returns closes fast f)
        λ fast_ma e. bind-Returns (compute_ema-Returns closes slow s) λ slow_ma e'. returns (e, e')

  sma_averages-Returns :
      (closes : List F) (fast slow : ℕ)
      → slow ≤ length closes
      → Returns
          (λ mas. (length mas.0 ≡ length closes) × (length mas.1 ≡ length closes))
          (sma_averages closes fast slow)
  unfolding sma_averages
  sma_averages-Returns closes fast slow le = bind-Returns (averages fast) λ fast_ma e.
      bind-Returns (averages slow) λ slow_ma e'. returns (whole fast_ma e, whole slow_ma e')
    where
      averages :
          (period : ℕ)
          → Returns
              (λ xs. length xs ≡ length closes - slow)
              (fill (λ i. bar_sma closes (i + 1) period) slow (length closes - slow))
      averages period =
          fill-Returns (λ i. bar_sma closes (i + 1) period) slow (length closes - slow)
            λ j from upto. bar_sma-Returns closes (j + 1) period (omega (arith, upto, le))

      whole :
          (ma : List F)
          → length ma ≡ length closes - slow
          → length (replicate slow (fl.of_nat 0) ++ ma) ≡ length closes
      whole ma e = omega (
        arith,
        le,
        e,
        length-append {0} (replicate slow (fl.of_nat 0)) ma,
        length-replicate {A = F} slow (fl.of_nat 0),
      )

  decision-Returns :
      (closes : List F) (s : Strategy F)
      → bars_needed s ≤ length closes
      → IsSane s
      → Returns
          (λ decide.
            (i : ℕ) (b : Book F)
            → warmup s ≤ i
            → i < length closes
            → Returns (Fits b.in_position) (decide i b))
          (decision closes s)
  unfolding decision
  decision-Returns closes (crossover fast slow true) le (f, s) =
      bind-Returns (ema_averages-Returns closes fast slow f s) λ mas (e, e').
        returns λ i b from upto. crossover_move-Returns mas.0 mas.1 i b (omega arith) (omega arith)
  decision-Returns closes (crossover fast slow false) le sane =
      bind-Returns (sma_averages-Returns closes fast slow (omega arith)) λ mas (e, e').
        returns λ i b from upto. crossover_move-Returns mas.0 mas.1 i b (omega arith) (omega arith)
  decision-Returns closes (rsi_mean_reversion period oversold overbought) le sane =
      returns λ i b from upto.
        rsi_move-Returns (compute_rsi closes period) oversold overbought i b
          (omega (arith, upto, length-compute_rsi closes period))
  decision-Returns closes (bollinger_bands period std_devs) le sane =
      bind-Returns (compute_bollinger-Returns closes period std_devs sane) λ bands e.
        returns λ i b from upto. bollinger_move-Returns closes bands i b upto (omega arith)
  decision-Returns closes (breakout lookback hold_bars) le sane =
      returns λ i b from upto. breakout_move-Returns closes lookback hold_bars i b upto from

  pub warmup-lt : (s : Strategy F) → warmup s < bars_needed s
  warmup-lt (crossover fast slow use_ema) = omega arith
  warmup-lt (rsi_mean_reversion period oversold overbought) = omega arith
  warmup-lt (bollinger_bands period std_devs) = omega arith
  warmup-lt (breakout lookback hold_bars) = omega arith

  -- For as many dates as closes, enough closes, and averages with positive periods, the loop of
  -- each of the four strategies does not panic, and its events are a ledger that starts without a
  -- position and ends in the position of the loop: buys and sells alternate, at rising bars from
  -- the first of the loop on, each with the close and the date of its bar.
  pub run_strategy-Returns :
      (format_date : Time → Str) (closes : List F) (dates : List Time) (s : Strategy F)
      → length dates ≡ length closes
      → bars_needed s ≤ length closes
      → IsSane s
      → Returns
          (Keeps format_date closes dates (warmup s) (length closes))
          (run_strategy format_date closes dates s)
  unfolding run_strategy
  run_strategy-Returns format_date closes dates s same le sane =
      bind-Returns (decision-Returns closes s le sane) λ decide decides.
        bars_loop-Keeps format_date closes dates decide (warmup s) (warmup s)
          (length closes - warmup s) (length closes) start_book
          (λ k b from upto. decides k b from upto) (omega (arith, warmup-lt s)) (omega arith) same
          (omega arith, refl)
