-- ===== src/Dashboard/Signals/Total.antt =====
-- cmd/dashboard/livestrategy.go: computeLiveSignal on bars, one at least.
use crypto_divergence_engine.Prelude.{
  ℕ, zero, suc, ◌+◌, ◌-◌, ◌<◌, ◌≤◌, inl, inr, Bool, true, false, List, if◌then◌else◌, ltb, length,
  arith, Bool-cases,
}
use crypto_divergence_engine.Go.Text.{Str, bytes, str_eq}
use crypto_divergence_engine.Go.Float.{Float, gt}
use crypto_divergence_engine.Go.Checked.{Returns, returns, bind-Returns, at-Returns, if-Returns}
use crypto_divergence_engine.Dashboard.Indicators.{compute_rsi}
use crypto_divergence_engine.Dashboard.Indicators.Bounds.{
  Any, bar_sma-Returns, compute_ema-Returns, compute_bollinger-Returns,
}
use crypto_divergence_engine.Dashboard.Backtest.Moves.{max_loop-Returns}
use crypto_divergence_engine.Dashboard.Signals.{
  last_averages, live_signal_crossover, rsi_scan, live_signal_rsi, live_signal_bollinger,
  last_breakout, live_signal_breakout, compute_live_signal,
}

-- one of the three signals
pub data IsSignal : Str → Type 0 where
  is_buy : IsSignal (bytes "buy")
  is_sell : IsSignal (bytes "sell")
  is_hold : IsSignal (bytes "hold")

if-IsSignal : (p : Bool) {s t : Str} → IsSignal s → IsSignal t → IsSignal (if p then s else t)
if-IsSignal true a b = a
if-IsSignal false a b = b

module _ {F : Type 0} ⦃fl : Float F⦄ where
  last_averages-Returns :
      (closes : List F) (fast slow : ℕ) (use_ema : Bool)
      → 0 < length closes
      → 0 < fast
      → 0 < slow
      → Returns Any (last_averages closes fast slow use_ema)
  unfolding last_averages
  last_averages-Returns closes fast slow true bars f s =
      bind-Returns (compute_ema-Returns closes fast f) λ fe size.
        bind-Returns (compute_ema-Returns closes slow s) λ se size'.
          bind-Returns (at-Returns fe (length closes - 1) (omega arith))
            λ a e. bind-Returns (at-Returns se (length closes - 1) (omega arith)) λ b e'. returns tt
  last_averages-Returns closes fast slow false bars f s =
      bind-Returns (bar_sma-Returns closes (length closes) fast (omega arith)) λ a e.
        bind-Returns (bar_sma-Returns closes (length closes) slow (omega arith)) λ b e'. returns tt

  live_signal_crossover-Returns :
      (closes : List F) (fast slow : ℕ) (use_ema : Bool)
      → 0 < length closes
      → 0 < fast
      → 0 < slow
      → Returns IsSignal (live_signal_crossover closes fast slow use_ema)
  unfolding live_signal_crossover
  live_signal_crossover-Returns closes fast slow use_ema bars f s =
      if-Returns (ltb (length closes) (slow + 1)) (λ few. returns is_hold)
        (λ miss.
          bind-Returns (last_averages-Returns closes fast slow use_ema bars f s)
            λ mas e. returns (if-IsSignal (gt mas.0 mas.1) is_buy is_sell))

  rsi_scan-Returns :
      (rsi : List F) (oversold overbought : F) (i : ℕ)
      → i ≤ length rsi
      → Returns IsSignal (rsi_scan rsi oversold overbought i)
  unfolding rsi_scan
  rsi_scan-Returns rsi oversold overbought zero h = returns is_hold
  rsi_scan-Returns rsi oversold overbought (suc i) h =
      bind-Returns (at-Returns rsi i (omega arith)) λ r e.
        if-Returns (fl.eq r (fl.of_nat 0))
          (λ skip. rsi_scan-Returns rsi oversold overbought i (omega arith))
          λ miss. returns (if-IsSignal _ is_buy (if-IsSignal _ is_sell is_hold))

  live_signal_bollinger-Returns :
      (closes : List F) (period : ℕ) (std_devs : F)
      → 0 < length closes
      → 0 < period
      → Returns IsSignal (live_signal_bollinger closes period std_devs)
  unfolding live_signal_bollinger
  live_signal_bollinger-Returns closes period std_devs bars p =
      bind-Returns (compute_bollinger-Returns closes period std_devs p) λ bands size.
        bind-Returns (at-Returns closes (length closes - 1) (omega arith)) λ last e.
          bind-Returns (at-Returns bands (length closes - 1) (omega arith))
            λ band e'. returns (if-IsSignal _ is_buy (if-IsSignal _ is_sell is_hold))

  live_signal_breakout-Returns :
      (closes : List F) (lookback : ℕ) → Returns IsSignal (live_signal_breakout closes lookback)
  unfolding live_signal_breakout last_breakout
  live_signal_breakout-Returns closes lookback =
      elim (Bool-cases (ltb (length closes) (lookback + 1))) [
        | inl few ↦ rw few (returns is_hold)
        | inr miss ↦
            let enough : lookback + 1 ≤ length closes = ground (arith, miss) in
            rw miss (
              bind-Returns (at-Returns closes (length closes - lookback - 1) (omega arith))
                λ first e.
                  bind-Returns
                    (max_loop-Returns closes (length closes - lookback) (lookback - 1) first
                      (omega (arith, enough)))
                    λ max_close p.
                      bind-Returns (at-Returns closes (length closes - 1) (omega arith))
                        λ last e'. returns (if-IsSignal (gt last max_close) is_buy is_hold))
      ]

  -- For any strategy's name and at least one close, computeLiveSignal does not panic and gives
  -- "buy", "sell" or "hold".
  pub compute_live_signal-Returns :
      (strategy : Str) (closes : List F)
      → 0 < length closes
      → Returns IsSignal (compute_live_signal strategy closes)
  unfolding compute_live_signal live_signal_rsi
  compute_live_signal-Returns strategy closes bars =
      if-Returns (str_eq strategy (bytes "sma_crossover"))
        (λ e. live_signal_crossover-Returns closes 9 21 false bars (omega arith) (omega arith))
        λ e.
          if-Returns (str_eq strategy (bytes "ema_crossover"))
            (λ e. live_signal_crossover-Returns closes 9 21 true bars (omega arith) (omega arith))
            λ e.
              if-Returns (str_eq strategy (bytes "rsi_mean_reversion"))
                (λ e.
                  rsi_scan-Returns (compute_rsi closes 14) (fl.of_nat 30) (fl.of_nat 70) _
                    (omega arith))
                λ e.
                  if-Returns (str_eq strategy (bytes "bollinger_bands"))
                    (λ e. live_signal_bollinger-Returns closes 20 (fl.of_nat 2) bars (omega arith))
                    λ e.
                      if-Returns (str_eq strategy (bytes "breakout"))
                        (λ e. live_signal_breakout-Returns closes 20) λ e. returns is_hold
