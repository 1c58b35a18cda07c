-- ===== src/Dashboard/Backtest/Handler.antt =====
-- cmd/dashboard/backtest.go: the request for a backtest. encoding/json, time.Parse, the clock and Go's
-- conversion of a float64 to an int are parameters, and a period is converted to a natural number.
pub mod Replies
use crypto_divergence_engine.Prelude.{
  ℕ, ◌+◌, ◌*◌, Bool, true, false, not, Option, none, some, List, [], ◌∷◌, ◌++◌, if◌then◌else◌, ltb,
  leb,
}
use crypto_divergence_engine.Prelude.Int.{ℤ, pos, negsuc}
use crypto_divergence_engine.Go.Text.{Str, bytes, str_eq}
use crypto_divergence_engine.Go.Map.{Map, lookup}
use crypto_divergence_engine.Go.Time.{Time, hour}
use crypto_divergence_engine.Go.Float.{Float}
use crypto_divergence_engine.Go.Checked.{◌>>=◌, ◌>>◌}
use crypto_divergence_engine.Dashboard.Market.{Market, Outcome, failed, done, fetch_klines}
use crypto_divergence_engine.Dashboard.Backtest.{
  Strategy, crossover, rsi_mean_reversion, bollinger_bands, breakout,
}
use crypto_divergence_engine.Dashboard.Backtest.Report.{BacktestResult, failure, run_backtest}

-- `params` is none for a nil map
pub record BacktestRequest (F : Type 0) : Type 0 where
  pub symbol : Str
  pub interval : Str
  pub from_date : Str
  pub to_date : Str
  pub forward_days : ℤ
  pub strategy : Str
  pub params : Option (Map F)

pub data Reply (F : Type 0) : Type 0 where
  method_not_allowed : Reply F
  answer : BacktestResult F → Reply F

-- req.ForwardDays, with its default
unfoldable pub forward_or_default : ℤ → ℕ
forward_or_default (pos n) = if leb n 0 then 5 else n
forward_or_default (negsuc n) = 5

abbrev pub or_default : Str → Str → Str
or_default s fallback = if str_eq s [] then fallback else s

-- to, with the clock's time
unfoldable pub end_of : (Str → Option Time) → Time → Str → Time
end_of parse_date now to_date =
    if str_eq to_date []
    then now
    else elim (parse_date to_date) [ none ↦ now | some t ↦ t + 24 * hour ]

module _ {F : Type 0} ⦃fl : Float F⦄ where
  unfoldable pub param : BacktestRequest F → Str → F → F
  param r key fallback = elim (r.params) [
    | none ↦ fallback
    | some m ↦ elim (lookup key m) [ none ↦ fallback | some v ↦ v ]
  ]

  module _ (to_int : F → ℕ) where
    -- the switch on the strategy, with the parameters that it reads
    unfoldable pub choose_strategy : Str → BacktestRequest F → Option (Strategy F)
    choose_strategy name req =
        let int_param : Str → ℕ → ℕ = λ key fallback. to_int (param req key (fl.of_nat fallback)) in
        if str_eq name (bytes "sma_crossover")
        then some
            (crossover (int_param (bytes "fastPeriod") 9) (int_param (bytes "slowPeriod") 21) false)
        else if str_eq name (bytes "ema_crossover")
        then some
            (crossover (int_param (bytes "fastPeriod") 9) (int_param (bytes "slowPeriod") 21) true)
        else if str_eq name (bytes "rsi_mean_reversion")
        then some (
            rsi_mean_reversion (int_param (bytes "period") 14)
              (param req (bytes "oversold") (fl.of_nat 30))
              (param req (bytes "overbought") (fl.of_nat 70)))
        else if str_eq name (bytes "bollinger_bands")
        then some (
            bollinger_bands (int_param (bytes "period") 20)
              (param req (bytes "stdDevs") (fl.of_nat 2)))
        else if str_eq name (bytes "breakout")
        then some (breakout (int_param (bytes "lookback") 20) (int_param (bytes "holdBars") 10))
        else none

    module _ (mk : Market F) (parse_date : Str → Option Time) (now : Time) where
      -- the cases of the switch
      unfoldable pub run_chosen :
          Str → ℕ → List F → List Time → Option (Strategy F) → Option (Reply F)
      run_chosen name forward closes dates none =
          some (answer (failure (bytes "unknown strategy: " ++ name)))
      run_chosen name forward closes dates (some s) = do
        result ← run_backtest mk.format_day closes dates forward s
        some (answer result)

      -- from the end of fetchKlines on
      unfoldable pub reply_with :
          BacktestRequest F → Outcome (List F × List Time) → Option (Reply F)
      reply_with req (failed e) = some (answer (failure (bytes "data fetch failed: " ++ e)))
      reply_with req (done (closes, dates)) =
          let name = or_default req.strategy (bytes "sma_crossover") in
          run_chosen name (forward_or_default req.forward_days) closes dates
            (choose_strategy name req)

      -- from the end of time.Parse on
      unfoldable pub reply_from : BacktestRequest F → Option Time → Option (Reply F)
      reply_from req none = some (answer (failure (bytes "invalid from date")))
      reply_from req (some from) = reply_with req (
          fetch_klines mk req.symbol (or_default req.interval (bytes "1d")) from
            (end_of parse_date now req.to_date))

      -- from the end of Decode on
      unfoldable pub reply_to : Option (BacktestRequest F) → Option (Reply F)
      reply_to none = some (answer (failure (bytes "invalid request")))
      reply_to (some req) = reply_from req (parse_date req.from_date)

      -- `none` is a panic; `decoded` is what Decode makes of the body
      unfoldable pub handle_backtest : Str → Option (BacktestRequest F) → Option (Reply F)
      handle_backtest method decoded =
          if str_eq method (bytes "POST") then reply_to decoded else some method_not_allowed
