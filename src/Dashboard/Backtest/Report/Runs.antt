-- ===== src/Dashboard/Backtest/Report/Runs.antt =====
-- cmd/dashboard/backtest.go: the results of the run functions.
use crypto_divergence_engine.Prelude.{
  ℕ, suc, ◌+◌, ◌-◌, ◌^◌, ◌<◌, ◌≤◌, ◌≡◌, refl, ap, ◌∙◌, sym, Bool, false, not, some, List, [], ◌∷◌,
  ltb, length, arith, Bool-cases, inl, inr, ◌⊎◌, get_elem?,
}
use mathlib.Core.Path.{subst}
use crypto_divergence_engine.Go.Text.{Str}
use crypto_divergence_engine.Go.Time.{Time}
use crypto_divergence_engine.Go.Float.{Float}
use crypto_divergence_engine.Go.Checked.{Returns, returns, at-Returns, Returns-weaken, Returns-some}
use crypto_divergence_engine.Dashboard.Backtest.{
  TradeEvent, Strategy, Book, run_strategy, bars_needed, warmup,
}
use crypto_divergence_engine.Dashboard.Backtest.Ledger.{IsLedger}
use crypto_divergence_engine.Dashboard.Backtest.Safety.{IsSane, run_strategy-Returns, warmup-lt}
use crypto_divergence_engine.Dashboard.Backtest.Report.{
  BacktestResult, failure, not_enough_data, run_enough, run_backtest,
}
use crypto_divergence_engine.Dashboard.Backtest.Report.Rows.{InBars}
use crypto_divergence_engine.Dashboard.Backtest.Report.Whole.{
  Reports, in_percent, compute_result_lem,
}
use crypto_divergence_engine.Dashboard.Backtest.Report.Equity.{equity, open_return-eq-worth}

module _ {F : Type 0} ⦃fl : Float F⦄ (format_date : Time → Str) (closes : List F)
    (dates : List Time) where
  pub InBars-IsLedger :
      (long : Bool) (lo : ℕ) (end : Bool) (es : List (TradeEvent F))
      → IsLedger format_date closes dates long lo (length closes) end es
      → InBars (length closes) es
  InBars-IsLedger long lo end [] h = tt
  InBars-IsLedger long lo end (e ∷ es) (from, upto, kind, own, rest) =
      (upto, InBars-IsLedger (not long) (suc e.bar_idx) end es rest)

  -- The result of the events of the strategy's loop, which are a ledger of its bars, and of what one
  -- unit grew to with them.
  abbrev pub IsReport : ℕ → Strategy F → BacktestResult F → Type 0
  IsReport forward s r =
      (b : Book F) × (last : F) × (run_strategy format_date closes dates s ≡ some b)
      × IsLedger format_date closes dates false (warmup s) (length closes) b.in_position b.events
      × (get_elem? closes (length closes - 1) ≡ some last)
      × Reports closes forward b.events r
      × (r.strat_return ≡ in_percent (equity b.events last))

  run_enough-Returns :
      (forward : ℕ) (s : Strategy F)
      → length dates ≡ length closes
      → bars_needed s ≤ length closes
      → IsSane s
      → length closes + forward < 2 ^ 63
      → Returns (IsReport forward s) (run_enough format_date closes dates forward s)
  unfolding run_enough
  run_enough-Returns forward s same le sane fits =
      let (b, ran, keeps) =
        Returns-some (run_strategy-Returns format_date closes dates s same le sane) in
      rw ran (
        let (last, at_last, u) =
          Returns-some (at-Returns closes (length closes - 1) (omega (arith, le, warmup-lt s))) in
        Returns-weaken
          (compute_result_lem b.events closes (warmup s) forward
            (InBars-IsLedger false (warmup s) b.in_position b.events keeps)
            (omega (arith, le, warmup-lt s)) fits
            (subst (Returns (λ x. x ≡ equity b.events last))
              (sym (
                open_return-eq-worth format_date closes dates (length closes) (warmup s)
                  (length closes) b.in_position last b.events (fl.of_nat 1) at_last keeps))
              (returns refl)))
          λ r (reports, (x, grew, total)).
            (b, last, ran, keeps, at_last, reports, total ∙ ap in_percent grew))

  -- For as many dates as closes, a strategy whose averages have positive periods, and forward
  -- days that fit an int with the number of bars, a run function returns: the error that names
  -- the bars needed and the bars there are if there are too few, and else the report of the
  -- events of the strategy's own loop, which are a ledger of the bars from the first of the loop
  -- on: its buys and sells alternate, one at a bar at most, with the close and the date of the
  -- bar, and the return is that of an account that follows them.
  pub run_backtest-Returns :
      (forward : ℕ) (s : Strategy F)
      → length dates ≡ length closes
      → IsSane s
      → length closes + forward < 2 ^ 63
      → Returns
          (λ r.
            ((length closes < bars_needed s)
              × (r ≡ failure (not_enough_data (bars_needed s) (length closes))))
            ⊎ ((bars_needed s ≤ length closes) × IsReport forward s r))
          (run_backtest format_date closes dates forward s)
  unfolding run_backtest
  run_backtest-Returns forward s same sane fits =
      elim (Bool-cases (ltb (length closes) (bars_needed s))) [
        | inl few ↦ rw few (returns (inl (ground (arith, few), refl)))
        | inr miss ↦
            let enough : bars_needed s ≤ length closes = ground (arith, miss) in
            rw miss (
              Returns-weaken (run_enough-Returns forward s same enough sane fits)
                λ r report. inr (enough, report))
      ]
