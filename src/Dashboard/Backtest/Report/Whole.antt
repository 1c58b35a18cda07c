-- ===== src/Dashboard/Backtest/Report/Whole.antt =====
-- cmd/dashboard/backtest.go: the whole of computeResult.
use crypto_divergence_engine.Prelude.{
  ℕ, suc, ◌+◌, ◌-◌, ◌^◌, ◌<◌, ◌≤◌, ◌≡◌, refl, List, [], length, length-replicate, replicate, arith,
}
use crypto_divergence_engine.Go.Float.{Float}
use crypto_divergence_engine.Go.Checked.{Returns, returns, bind-Returns, Returns-weaken}
use crypto_divergence_engine.Dashboard.Backtest.{TradeEvent}
use crypto_divergence_engine.Dashboard.Backtest.Report.{
  BacktestResult, pairs_return, open_return, compute_result,
}
use crypto_divergence_engine.Dashboard.Backtest.Report.Rows.{
  InBars, AreRows, length-AreRows, signal_rows-Returns, samples-Returns, open_return-Returns,
  mark_buys-Returns,
}

module _ {F : Type 0} ⦃fl : Float F⦄ where
  -- What computeResult reports of the events, the return apart.
  abbrev pub Reports : List F → ℕ → List (TradeEvent F) → BacktestResult F → Type 0
  Reports closes forward events r =
      AreRows (length closes) forward events r.signals
      × (r.num_signals ≡ length events)
      × (r.bars_used ≡ length closes)
      × (r.error ≡ [])

  -- The return in percent of what one unit grew to.
  abbrev pub in_percent : F → F
  in_percent x = fl.mul (fl.sub x (fl.of_nat 1)) (fl.of_nat 100)

  pub compute_result_lem :
      {P : F → Type 0} (events : List (TradeEvent F)) (closes : List F) (warm forward : ℕ)
      → InBars (length closes) events
      → warm ≤ length closes
      → length closes + forward < 2 ^ 63
      → Returns P (open_return closes (length closes) events (pairs_return events (fl.of_nat 1)))
      → Returns
          (λ r. Reports closes forward events r × ((x : F) × P x × (r.strat_return ≡ in_percent x)))
          (compute_result events closes (length closes) warm forward)
  unfolding compute_result
  compute_result_lem events closes warm forward h le fits grows =
      bind-Returns (signal_rows-Returns closes n forward refl fits events h) λ rows are.
        bind-Returns grows λ x p.
          bind-Returns
            (mark_buys-Returns n events (replicate n (fl.of_nat 0))
              (length-replicate {A = F} n (fl.of_nat 0)) h)
            λ indicator size.
              bind-Returns
                (samples-Returns closes n forward refl fits indicator (suc (n - warm)) warm size le
                  (omega arith))
                λ pairs q.
                  returns
                    ((are, length-AreRows n forward events rows are, refl, refl), (x, p, refl))
    where
      n : ℕ
      n = length closes

  -- For events at bars that there are, a first bar that is not past the end, and forward days
  -- that fit an int with the number of bars, computeResult ends and does not panic; it has one
  -- row for each event, with the date, the price and the kind of the event, and a forward return
  -- exactly if the bar that many bars later exists; it counts the rows and the bars, and has no
  -- error.
  pub compute_result-Returns :
      (events : List (TradeEvent F)) (closes : List F) (warm forward : ℕ)
      → InBars (length closes) events
      → warm ≤ length closes
      → length closes + forward < 2 ^ 63
      → Returns
          (Reports closes forward events)
          (compute_result events closes (length closes) warm forward)
  compute_result-Returns events closes warm forward h le fits =
      Returns-weaken
        (compute_result_lem events closes warm forward h le fits
          (open_return-Returns closes (length closes) events _ refl h))
        λ r p. p.0
