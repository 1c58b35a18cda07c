-- ===== src/Dashboard/Signals.antt =====
-- cmd/dashboard/livestrategy.go: the live signals of the built-in strategies. `none` is a panic.
pub mod Following
pub mod Agreement
pub mod Total
use crypto_divergence_engine.Prelude.{
  ℕ, zero, suc, ◌+◌, ◌-◌, ◌&&◌, Bool, true, false, Option, none, some, List, if◌then◌else◌, ltb,
  length,
}
use crypto_divergence_engine.Go.Text.{Str, bytes, str_eq}
use crypto_divergence_engine.Go.Float.{Float, gt}
use crypto_divergence_engine.Go.Checked.{◌>>=◌, ◌>>◌, at}
use crypto_divergence_engine.Dashboard.Indicators.{
  Band, bar_sma, compute_ema, compute_rsi, compute_bollinger,
}
use crypto_divergence_engine.Dashboard.Backtest.{max_loop}

-- xs[len(xs)-1]: an empty slice has no cell at 0 either
abbrev pub at_last : {A : Type 0} → List A → Option A
at_last xs = at xs (length xs - 1)

module _ {F : Type 0} ⦃fl : Float F⦄ where
  -- f and s of liveSignalCrossover
  unfoldable pub last_averages : List F → ℕ → ℕ → Bool → Option (F × F)
  last_averages closes fast slow true = do
    fe ← compute_ema closes fast
    se ← compute_ema closes slow
    f ← at fe (length closes - 1)
    s ← at se (length closes - 1)
    some (f, s)
  last_averages closes fast slow false = do
    f ← bar_sma closes (length closes) fast
    s ← bar_sma closes (length closes) slow
    some (f, s)

  unfoldable pub live_signal_crossover : List F → ℕ → ℕ → Bool → Option Str
  live_signal_crossover closes fast slow use_ema =
      if ltb (length closes) (slow + 1)
      then some (bytes "hold")
      else (last_averages closes fast slow use_ema >>= λ (f, s).
          some (if gt f s then bytes "buy" else bytes "sell"))

  -- the loop of liveSignalRSI, over the cells before i from the last one down
  unfoldable pub rsi_scan : List F → F → F → ℕ → Option Str
  rsi_scan rsi oversold overbought zero = some (bytes "hold")
  rsi_scan rsi oversold overbought (suc i) = at rsi i >>= λ r.
      if fl.eq r (fl.of_nat 0)
      then rsi_scan rsi oversold overbought i
      else some (
          if fl.lt r oversold
          then bytes "buy"
          else if gt r overbought
          then bytes "sell"
          else bytes "hold")

  unfoldable pub live_signal_rsi : List F → ℕ → F → F → Option Str
  live_signal_rsi closes period oversold overbought =
      let rsi = compute_rsi closes period in rsi_scan rsi oversold overbought (length rsi)

  unfoldable pub live_signal_bollinger : List F → ℕ → F → Option Str
  live_signal_bollinger closes period std_devs = do
    bands ← compute_bollinger closes period std_devs
    last ← at_last closes
    band ← at bands (length closes - 1)
    some (
        if gt band.lower (fl.of_nat 0) && fl.lt last band.lower
        then bytes "buy"
        else if gt band.upper (fl.of_nat 0) && gt last band.middle
        then bytes "sell"
        else bytes "hold")

  unfoldable pub last_breakout : List F → ℕ → Option Str
  last_breakout closes lookback = do
    first ← at closes (length closes - lookback - 1)
    max_close ← max_loop closes (length closes - lookback) (lookback - 1) first
    last ← at_last closes
    some (if gt last max_close then bytes "buy" else bytes "hold")

  unfoldable pub live_signal_breakout : List F → ℕ → Option Str
  live_signal_breakout closes lookback =
      if ltb (length closes) (lookback + 1)
      then some (bytes "hold")
      else last_breakout closes lookback

  unfoldable pub compute_live_signal : Str → List F → Option Str
  compute_live_signal strategy closes =
      if str_eq strategy (bytes "sma_crossover")
      then live_signal_crossover closes 9 21 false
      else if str_eq strategy (bytes "ema_crossover")
      then live_signal_crossover closes 9 21 true
      else if str_eq strategy (bytes "rsi_mean_reversion")
      then live_signal_rsi closes 14 (fl.of_nat 30) (fl.of_nat 70)
      else if str_eq strategy (bytes "bollinger_bands")
      then live_signal_bollinger closes 20 (fl.of_nat 2)
      else if str_eq strategy (bytes "breakout")
      then live_signal_breakout closes 20
      else some (bytes "hold")
