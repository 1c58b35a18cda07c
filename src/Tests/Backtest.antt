-- ===== src/Tests/Backtest.antt =====
-- The strategies and their backtests on short lists of closes.
use crypto_divergence_engine.Prelude.{
  ℕ, ◌<◌, ◌≤◌, ◌≡◌, refl, ◌⊎◌, true, false, none, some, List, [], ◌∷◌, arith,
}
use crypto_divergence_engine.Prelude.Int.{ℤ, pos, ◌+ℤ◌, ◌-ℤ◌, ◌*ℤ◌}
use crypto_divergence_engine.Go.Text.{Str, bytes}
use crypto_divergence_engine.Go.Time.{Time}
use crypto_divergence_engine.Go.Checked.{Returns, fill}
use crypto_divergence_engine.Dashboard.Indicators.{bar_sma, sum_range}
use crypto_divergence_engine.Dashboard.Backtest.{
  TradeEvent, Book, Strategy, breakout, run_strategy, crossover, decision, bars_loop, apply_move,
  event_at, crossover_move, sma_averages,
}
use crypto_divergence_engine.Dashboard.Backtest.Ledger.{Keeps}
use crypto_divergence_engine.Dashboard.Backtest.Safety.{run_strategy-Returns}
use crypto_divergence_engine.Dashboard.Backtest.Report.{
  failure, not_enough_data, compute_result, pairs_return, open_return, run_backtest,
}
use crypto_divergence_engine.Dashboard.Backtest.Report.Whole.{Reports, compute_result-Returns}
use crypto_divergence_engine.Dashboard.Backtest.Report.Equity.{
  follow_all, worth, open_return-eq-worth,
}
use crypto_divergence_engine.Dashboard.Backtest.Report.Runs.{IsReport, run_backtest-Returns}
use crypto_divergence_engine.Dashboard.Signals.{compute_live_signal, live_signal_crossover}
use crypto_divergence_engine.Dashboard.Signals.Total.{IsSignal, compute_live_signal-Returns}
use crypto_divergence_engine.Dashboard.Signals.Agreement.{run_strategy-live_signal}
use crypto_divergence_engine.Dashboard.Backtest.{breakout_move, max_loop}
use crypto_divergence_engine.Go.Checked.{add_int}
use crypto_divergence_engine.Dashboard.Backtest.Causal.{Extends}
use crypto_divergence_engine.Dashboard.Backtest.Lookahead.{no_lookahead}
use crypto_divergence_engine.Prelude.{◌++◌}
use crypto_divergence_engine.Tests.Data.{whole_numbers, start}

-- a breakout at bar 2, which is sold at bar 3, and one at bar 5
abbrev closes : List ℤ
closes = pos 10 ∷ pos 11 ∷ pos 13 ∷ pos 12 ∷ pos 11 ∷ pos 15 ∷ []

abbrev dates : List Time
dates = start ∷ start ∷ start ∷ start ∷ start ∷ start ∷ []

abbrev pub no_format : Time → Str
no_format t = []

abbrev strategy : Strategy ℤ
strategy = breakout 2 1

run_strategy-Returns_example :
    Returns (Keeps no_format closes dates 2 6) (run_strategy no_format closes dates strategy)
run_strategy-Returns_example =
    run_strategy-Returns no_format closes dates strategy refl (omega arith) tt

run_backtest-Returns_example :
    Returns
      (λ r.
        ((6 < 3) × (r ≡ failure (not_enough_data 3 6)))
        ⊎ ((3 ≤ 6) × IsReport no_format closes dates 1 strategy r))
      (run_backtest no_format closes dates 1 strategy)
run_backtest-Returns_example =
    run_backtest-Returns no_format closes dates 1 strategy refl tt (omega arith)

abbrev pub event : ℕ → ℕ → Str → TradeEvent ℤ
event i price kind = record { bar_idx = i; date = []; price = pos price; kind = kind }

abbrev events : List (TradeEvent ℤ)
events = event 2 13 (bytes "buy") ∷ event 3 12 (bytes "sell") ∷ event 5 15 (bytes "buy") ∷ []

compute_result-Returns_example :
    Returns (Reports closes 2 events) (compute_result events closes 6 2 2)
compute_result-Returns_example =
    compute_result-Returns events closes 2 2 (omega arith, (omega arith, (omega arith, tt)))
      (omega arith) (omega arith)

open_return-eq-worth_example :
    open_return closes 6 events (pairs_return events (pos 1))
    ≡ some (worth (pos 15) (follow_all (record { value = pos 1; paid = none }) events))
open_return-eq-worth_example =
    open_return-eq-worth no_format closes dates 6 2 6 true (pos 15) events (pos 1) refl (
      omega arith,
      omega arith,
      refl,
      (refl, (start, refl, refl)),
      (
        omega arith,
        omega arith,
        refl,
        (refl, (start, refl, refl)),
        (omega arith, omega arith, refl, (refl, (start, refl, refl)), (omega arith, refl)),
      ),
    )

compute_live_signal-Returns_example :
    Returns IsSignal (compute_live_signal (bytes "rsi_mean_reversion") closes)
compute_live_signal-Returns_example =
    compute_live_signal-Returns (bytes "rsi_mean_reversion") closes (omega arith)

-- the average of one close crosses that of two at bar 3
abbrev rising : List ℤ
rising = pos 10 ∷ pos 9 ∷ pos 8 ∷ pos 12 ∷ pos 13 ∷ []

abbrev held : Book ℤ
held = record { in_position = true; entry_bar = 3; events = event 3 12 (bytes "buy") ∷ [] }

run_of_rising : run_strategy no_format rising dates (crossover 1 2 false) ≡ some held
unfolding run_strategy decision bars_loop apply_move event_at crossover_move sma_averages fill
    bar_sma sum_range ◌+ℤ◌ ◌-ℤ◌ ◌*ℤ◌
run_of_rising = refl

run_strategy-live_signal_example : live_signal_crossover rising 1 2 false ≡ some (bytes "buy")
run_strategy-live_signal_example =
    run_strategy-live_signal no_format rising dates 1 2 false held (omega arith) run_of_rising refl

-- the closes and two more: the position is sold at bar 6, and bar 7 breaks out
abbrev more : List ℤ
more = pos 9 ∷ pos 20 ∷ []

abbrev book_before : Book ℤ
book_before = record { in_position = true; entry_bar = 5; events = events }

abbrev book_after : Book ℤ
book_after = record {
  in_position = true;
  entry_bar = 7;
  events = events ++ event 6 9 (bytes "sell") ∷ event 7 20 (bytes "buy") ∷ [];
}

run_before : run_strategy no_format closes dates strategy ≡ some book_before
unfolding run_strategy decision bars_loop apply_move event_at breakout_move max_loop add_int
run_before = refl

run_after :
    run_strategy no_format (closes ++ more) (dates ++ start ∷ start ∷ []) strategy ≡ some book_after
unfolding run_strategy decision bars_loop apply_move event_at breakout_move max_loop add_int
run_after = refl

no_lookahead_example : Extends 6 book_before book_after
no_lookahead_example =
    no_lookahead closes more no_format dates (start ∷ start ∷ []) strategy book_before book_after
      refl (omega arith) tt run_before run_after
