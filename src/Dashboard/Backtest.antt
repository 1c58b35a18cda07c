-- ===== src/Dashboard/Backtest.antt =====
-- cmd/dashboard/backtest.go: the built-in strategies over a list of closing prices. `none` is a panic,
-- and `format_date` is time's Format with the layout of a day. The periods of a request are taken to be
-- natural numbers.
pub mod Ledger
pub mod Moves
pub mod Safety
pub mod Causal
pub mod Local
pub mod Lookahead
pub mod Report
pub mod Handler
use crypto_divergence_engine.Prelude.{
  ℕ, zero, suc, ◌+◌, ◌-◌, ◌%◌, ◌≤◌, ◌<◌, ◌≡◌, Bool, true, false, not, ◌&&◌, ◌||◌, Option, none,
  some, List, [], ◌∷◌, ◌++◌, foldl, if◌then◌else◌, ltb, ◌==◌, length, replicate,
}
use crypto_divergence_engine.Prelude.Int.{pos, ltb_ℤ}
use crypto_divergence_engine.Go.Text.{Str, bytes}
use crypto_divergence_engine.Go.Time.{Time}
use crypto_divergence_engine.Go.Float.{Float, gt}
use crypto_divergence_engine.Go.Checked.{◌>>=◌, ◌>>◌, at, fill, add_int}
use crypto_divergence_engine.Dashboard.Indicators.{
  bar_sma, compute_ema, compute_rsi, compute_bollinger, Band,
}

pub record TradeEvent (F : Type 0) : Type 0 where
  pub bar_idx : ℕ
  pub date : Str
  pub price : F
  pub kind : Str

-- the variables of a strategy's loop; entryBar stands in runBreakout only
pub record Book (F : Type 0) : Type 0 where
  pub in_position : Bool
  pub entry_bar : ℕ
  pub events : List (TradeEvent F)

-- What a round of a loop does: neither branch, the one that buys, or the one that sells.
pub data Move : Type 0 where
  stay buy sell : Move

module _ {F : Type 0} where
  abbrev pub start_book : Book F
  start_book = record { in_position = false; entry_bar = 0; events = [] }

module _ {F : Type 0} (format_date : Time → Str) (closes : List F) (dates : List Time) where
  -- tradeEvent{i, dates[i].Format("2006-01-02"), closes[i], kind}
  unfoldable pub event_at : ℕ → Str → Option (TradeEvent F)
  event_at i kind = do
    date ← at dates i
    close ← at closes i
    some (record { bar_idx = i; date = format_date date; price = close; kind = kind })

  unfoldable pub apply_move : ℕ → Move → Book F → Option (Book F)
  apply_move i stay b = some b
  apply_move i buy b = do
    e ← event_at i (bytes "buy")
    some (record { in_position = true; entry_bar = i; events = b.events ++ e ∷ [] })
  apply_move i sell b = do
    e ← event_at i (bytes "sell")
    some (record b { in_position = false; events = b.events ++ e ∷ [] })

  -- for i from i, `count` times
  unfoldable pub bars_loop : (ℕ → Book F → Option Move) → ℕ → ℕ → Book F → Option (Book F)
  bars_loop decide i zero b = some b
  bars_loop decide i (suc count) b = do
    move ← decide i b
    b' ← apply_move i move b
    bars_loop decide (i + 1) count b'

module _ {F : Type 0} ⦃fl : Float F⦄ where
  -- the bodies of the four loops
  unfoldable pub crossover_move : List F → List F → ℕ → Book F → Option Move
  crossover_move fast_ma slow_ma i b = do
    prev_fast ← at fast_ma (i - 1)
    prev_slow ← at slow_ma (i - 1)
    fast ← at fast_ma i
    slow ← at slow_ma i
    let prev_above = gt prev_fast prev_slow
    let curr_above = gt fast slow
    some (
        if not prev_above && (curr_above && not b.in_position)
        then buy
        else if prev_above && (not curr_above && b.in_position)
        then sell
        else stay)

  unfoldable pub rsi_move : List F → F → F → ℕ → Book F → Option Move
  rsi_move rsi oversold overbought i b = do
    r ← at rsi i
    some (
        if fl.eq r (fl.of_nat 0)
        then stay
        else if fl.lt r oversold && not b.in_position
        then buy
        else if gt r overbought && b.in_position
        then sell
        else stay)

  unfoldable pub bollinger_move : List F → List (Band F) → ℕ → Book F → Option Move
  bollinger_move closes bands i b = do
    band ← at bands i
    close ← at closes i
    some (
        if fl.eq band.lower (fl.of_nat 0)
        then stay
        else if fl.lt close band.lower && not b.in_position
        then buy
        else if gt close band.middle && b.in_position
        then sell
        else stay)

  -- for j from j, `count` times: the greater of maxClose and closes[j]
  unfoldable pub max_loop : List F → ℕ → ℕ → F → Option F
  max_loop closes j zero max_close = some max_close
  max_loop closes j (suc count) max_close = do
    close ← at closes j
    max_loop closes (j + 1) count (if gt close max_close then close else max_close)

  unfoldable pub breakout_move : List F → ℕ → ℕ → ℕ → Book F → Option Move
  breakout_move closes lookback hold_bars i b =
      if b.in_position
      then some (if ltb_ℤ (pos i) (add_int b.entry_bar hold_bars) then stay else sell)
      else do
        first ← at closes (i - lookback)
        max_close ← max_loop closes (i - lookback + 1) (lookback - 1) first
        close ← at closes i
        some (if gt close max_close then buy else stay)

  -- the two averages of runCrossover
  unfoldable pub ema_averages : List F → ℕ → ℕ → Option (List F × List F)
  ema_averages closes fast slow = do
    fast_ma ← compute_ema closes fast
    slow_ma ← compute_ema closes slow
    some (fast_ma, slow_ma)

  unfoldable pub sma_averages : List F → ℕ → ℕ → Option (List F × List F)
  sma_averages closes fast slow = do
    fast_ma ← fill (λ i. bar_sma closes (i + 1) fast) slow (length closes - slow)
    slow_ma ← fill (λ i. bar_sma closes (i + 1) slow) slow (length closes - slow)
    let zeros = replicate slow (fl.of_nat 0)
    some (zeros ++ fast_ma, zeros ++ slow_ma)

  abbrev pub moving_averages : List F → ℕ → ℕ → Bool → Option (List F × List F)
  moving_averages closes fast slow use_ema =
      if use_ema then ema_averages closes fast slow else sma_averages closes fast slow

-- A strategy with its parameters, as handleBacktest chooses it.
pub data Strategy (F : Type 0) : Type 0 where
  crossover : (fast slow : ℕ) → (use_ema : Bool) → Strategy F
  rsi_mean_reversion : (period : ℕ) → (oversold overbought : F) → Strategy F
  bollinger_bands : (period : ℕ) → (std_devs : F) → Strategy F
  breakout : (lookback hold_bars : ℕ) → Strategy F

module _ {F : Type 0} where
  -- the bars that a strategy needs, and the first bar of its loop
  abbrev pub bars_needed : Strategy F → ℕ
  bars_needed (crossover fast slow use_ema) = slow + 2
  bars_needed (rsi_mean_reversion period oversold overbought) = period + 2
  bars_needed (bollinger_bands period std_devs) = period + 1
  bars_needed (breakout lookback hold_bars) = lookback + 1

  abbrev pub warmup : Strategy F → ℕ
  warmup (crossover fast slow use_ema) = slow + 1
  warmup (rsi_mean_reversion period oversold overbought) = period + 1
  warmup (bollinger_bands period std_devs) = period
  warmup (breakout lookback hold_bars) = lookback

module _ {F : Type 0} ⦃fl : Float F⦄ where
  -- what a strategy computes before its loop, and the body of the loop
  unfoldable pub decision : List F → Strategy F → Option (ℕ → Book F → Option Move)
  decision closes (crossover fast slow use_ema) = do
    mas ← moving_averages closes fast slow use_ema
    some (crossover_move mas.0 mas.1)
  decision closes (rsi_mean_reversion period oversold overbought) =
      some (rsi_move (compute_rsi closes period) oversold overbought)
  decision closes (bollinger_bands period std_devs) = do
    bands ← compute_bollinger closes period std_devs
    some (bollinger_move closes bands)
  decision closes (breakout lookback hold_bars) = some (breakout_move closes lookback hold_bars)

  -- the book after the loop of the strategy, for enough bars
  unfoldable pub run_strategy : (Time → Str) → List F → List Time → Strategy F → Option (Book F)
  run_strategy format_date closes dates s = do
    decide ← decision closes s
    bars_loop format_date closes dates decide (warmup s) (length closes - warmup s) start_book
