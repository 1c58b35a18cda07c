-- ===== src/Dashboard/Custom/Harness.antt =====
-- cmd/dashboard/backtest.go: the loop of the Python script around the user's code, pythonHarness. The user's
-- on_bar gets the script's own lists and runs in its global scope, so it is a function from all the
-- globals to all the globals. A global keeps the type that the script gives it (i is no negative
-- number), and a call that does not end is left out (the caller's timeout ends the script).
pub mod Sound
use crypto_divergence_engine.Prelude.{
  ℕ, zero, suc, ◌+◌, Bool, true, false, ◌&&◌, Option, none, some, List, [], ◌∷◌, ◌++◌,
  if◌then◌else◌, length, map, ◌==◌,
}
use crypto_divergence_engine.Prelude.Int.{ℤ, pos, negsuc}
use crypto_divergence_engine.Go.Text.{Str, bytes, str_eq, format_int}
use crypto_divergence_engine.Go.Checked.{◌>>=◌, ◌>>◌, at}
use crypto_divergence_engine.Dashboard.Market.{OhlcvBar}
use crypto_divergence_engine.Dashboard.Backtest.{TradeEvent}

-- The script's globals; `rest` is the memory and what else there is.
pub record Globals (F M : Type 0) : Type 0 where
  pub i : ℕ
  pub dates : List Str
  pub closes : List F
  pub opens : List F
  pub highs : List F
  pub lows : List F
  pub volumes : List F
  pub position : ℤ
  pub events : List (TradeEvent F)
  pub rest : M

-- What a call of on_bar does: it raises an Exception, it ends the script (SystemExit), or it gives a
-- signal (`none` for a value that is no string).
pub data Call (F M : Type 0) : Type 0 where
  raised : Str → Globals F M → Call F M
  exited : Call F M
  gave : Option Str → Globals F M → Call F M

-- What the script writes at its end: the error of a bar, the traceback of an error of its own,
-- nothing, or the events and the position.
pub data HarnessOutput (F : Type 0) : Type 0 where
  error : Str → HarnessOutput F
  crashed : HarnessOutput F
  silent : HarnessOutput F
  finished : List (TradeEvent F) → (position : ℤ) → HarnessOutput F

unfoldable pub is_signal : Str → Option Str → Bool
is_signal s none = false
is_signal s (some t) = str_eq t s

unfoldable pub is_position : ℕ → ℤ → Bool
is_position n (pos m) = m == n
is_position n (negsuc m) = false

-- 'bar %d (%s): %s'
unfoldable pub bar_error : ℕ → Str → Str → Str
bar_error i date e = bytes "bar " ++ format_int (pos i) ++ bytes " (" ++ date ++ bytes "): " ++ e

-- the handler of an Exception of on_bar at bar i, from dates[i] on
abbrev pub report_raised : {F : Type 0} → Str → ℕ → Option Str → HarnessOutput F
report_raised e i none = crashed
report_raised e i (some date) = error (bar_error i date e)

module _ {F M : Type 0} where
  -- the position and the event of a trade; `none` is an IndexError
  unfoldable pub append_trade : Str → ℤ → Globals F M → Option (Globals F M)
  append_trade kind position g = do
    date ← at g.dates g.i
    price ← at g.closes g.i
    some (record g {
      position = position;
      events = g.events ++ record { bar_idx = g.i; date = date; price = price; kind = kind } ∷ [];
    })

  -- the globals after a signal
  unfoldable pub take_signal : Option Str → Globals F M → Option (Globals F M)
  take_signal signal g =
      if is_signal (bytes "buy") signal && is_position 0 g.position
      then append_trade (bytes "buy") (pos 1) g
      else if is_signal (bytes "sell") signal && is_position 1 g.position
      then append_trade (bytes "sell") (pos 0) g
      else some g

  -- the try around a call of on_bar
  abbrev pub after_call : Call F M → (Option Str → Globals F M → HarnessOutput F) → HarnessOutput F
  after_call (raised e g) next = report_raised e g.i (at g.dates g.i)
  after_call exited next = silent
  after_call (gave signal g) next = next signal g

  -- the try around the loop
  abbrev pub or_crashed : Option (Globals F M) → (Globals F M → HarnessOutput F) → HarnessOutput F
  or_crashed none next = crashed
  or_crashed (some g) next = next g

  module _ (on_bar : Globals F M → Call F M) where
    -- the loop, with `left` bars to go from bar k on
    unfoldable pub harness_loop : ℕ → ℕ → Globals F M → HarnessOutput F
    harness_loop k zero g = finished g.events g.position
    harness_loop k (suc left) g =
        after_call (on_bar (record g { i = k }))
          λ signal g'. or_crashed (take_signal signal g') λ next. harness_loop (k + 1) left next

    unfoldable pub run_harness : List (OhlcvBar F) → M → HarnessOutput F
    run_harness bars memory = harness_loop 0 (length bars) (record {
      i = 0;
      dates = map OhlcvBar.date bars;
      closes = map OhlcvBar.close bars;
      opens = map OhlcvBar.open_price bars;
      highs = map OhlcvBar.high bars;
      lows = map OhlcvBar.low bars;
      volumes = map OhlcvBar.volume bars;
      position = pos 0;
      events = [];
      rest = memory;
    })
