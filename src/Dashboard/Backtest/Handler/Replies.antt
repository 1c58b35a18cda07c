-- ===== src/Dashboard/Backtest/Handler/Replies.antt =====
-- cmd/dashboard/backtest.go: what a request for a backtest is answered.
use crypto_divergence_engine.Prelude.{
  ℕ, ◌+◌, ◌^◌, ◌<◌, ◌≤◌, ◌≡◌, ◌≢◌, refl, ◌⊎◌, true, false, Option, none, some, List, [], length,
  arith, inl, inr,
}
use crypto_divergence_engine.Go.Text.{Str, bytes, str_eq}
use crypto_divergence_engine.Go.Time.{Time}
use crypto_divergence_engine.Go.Float.{Float}
use crypto_divergence_engine.Go.Checked.{
  Returns, returns, bind-Returns, Returns-weaken, if-Returns, IfReturns, if-IfReturns,
}
use crypto_divergence_engine.Dashboard.Market.{Market, Outcome, failed, done, fetch_klines}
use crypto_divergence_engine.Dashboard.Market.Klines.{fetch_klines-IfDone, IfDone, AreKlines}
use crypto_divergence_engine.Dashboard.Backtest.{Strategy, bars_needed}
use crypto_divergence_engine.Dashboard.Backtest.Safety.{IsSane}
use crypto_divergence_engine.Dashboard.Backtest.Report.{BacktestResult, not_enough_data}
use crypto_divergence_engine.Dashboard.Backtest.Report.Runs.{IsReport, run_backtest-Returns}
use crypto_divergence_engine.Dashboard.Backtest.Handler.{
  BacktestRequest, Reply, method_not_allowed, answer, forward_or_default, or_default, end_of, param,
  choose_strategy, run_chosen, reply_with, reply_from, reply_to, handle_backtest,
}

module _ {F : Type 0} where
  abbrev pub IsError : BacktestResult F → Type 0
  IsError r = (r.error ≢ []) × (r.signals ≡ [])

  -- An answer with a result that is an error or satisfies P.
  abbrev pub IsAnswer : (BacktestResult F → Type 0) → Reply F → Type 0
  IsAnswer P method_not_allowed = ⊥
  IsAnswer P (answer r) = IsError r ⊎ P r

  pub IsAnswer-weaken :
      (P Q : BacktestResult F → Type 0) (reply : Reply F)
      → ((r : BacktestResult F) → P r → Q r)
      → IsAnswer P reply
      → IsAnswer Q reply
  IsAnswer-weaken P Q method_not_allowed k h = h
  IsAnswer-weaken P Q (answer r) k (inl e) = inl e
  IsAnswer-weaken P Q (answer r) k (inr p) = inr (k r p)

  -- What the method is answered.
  abbrev pub IsReply : Str → (BacktestResult F → Type 0) → Reply F → Type 0
  IsReply method P method_not_allowed = str_eq method (bytes "POST") ≡ false
  IsReply method P (answer r) = (str_eq method (bytes "POST") ≡ true) × (IsError r ⊎ P r)

  pub IsReply-IsAnswer :
      (method : Str) (P : BacktestResult F → Type 0) (r : Reply F)
      → str_eq method (bytes "POST") ≡ true
      → IsAnswer P r
      → IsReply method P r
  IsReply-IsAnswer method P method_not_allowed post h = absurd h
  IsReply-IsAnswer method P (answer r) post h = (post, h)

module _ {F : Type 0} ⦃fl : Float F⦄ (to_int : F → ℕ) where
  -- The periods that an average divides by are positive, the defaults included.
  abbrev pub HasPeriods : BacktestRequest F → Type 0
  HasPeriods req =
      (0 < to_int (param req (bytes "fastPeriod") (fl.of_nat 9)))
      × (0 < to_int (param req (bytes "slowPeriod") (fl.of_nat 21)))
      × (0 < to_int (param req (bytes "period") (fl.of_nat 20)))

  choose_strategy-IsSane :
      (name : Str) (req : BacktestRequest F)
      → HasPeriods req
      → IfReturns IsSane (choose_strategy to_int name req)
  unfolding choose_strategy
  choose_strategy-IsSane name req (fast, slow, period) =
      if-IfReturns IsSane (str_eq name (bytes "sma_crossover")) _ _ tt (
        if-IfReturns IsSane (str_eq name (bytes "ema_crossover")) _ _ (fast, slow)
          (if-IfReturns IsSane (str_eq name (bytes "rsi_mean_reversion")) _ _ tt (
            if-IfReturns IsSane (str_eq name (bytes "bollinger_bands")) _ _ period
              (if-IfReturns IsSane (str_eq name (bytes "breakout")) _ _ tt tt))))

not_enough_data_lem : (need got : ℕ) → not_enough_data need got ≢ []
unfolding not_enough_data
not_enough_data_lem need got = ground arith

module _ {F : Type 0} ⦃fl : Float F⦄ (to_int : F → ℕ) (mk : Market F)
    (parse_date : Str → Option Time) (now : Time) where
  -- The report of the strategy, if there is one, on the closes.
  abbrev Ran : Option (Strategy F) → ℕ → List F → List Time → BacktestResult F → Type 0
  Ran chosen forward closes dates r =
      (s : Strategy F) × (chosen ≡ some s) × IsReport mk.format_day closes dates forward s r

  -- The report of the request's strategy on the closes that were fetched.
  abbrev RanOn : BacktestRequest F → Outcome (List F × List Time) → BacktestResult F → Type 0
  RanOn req fetched r =
      (closes : List F) × (dates : List Time) × (fetched ≡ done (closes, dates))
      × Ran (choose_strategy to_int (or_default req.strategy (bytes "sma_crossover")) req)
          (forward_or_default req.forward_days) closes dates r

  -- The report of the decoded request, on the closes that are fetched for it.
  abbrev pub RanFor : Option (BacktestRequest F) → BacktestResult F → Type 0
  RanFor decoded r =
      (req : BacktestRequest F) × (from : Time) × (decoded ≡ some req)
      × (parse_date req.from_date ≡ some from)
      × RanOn req
          (fetch_klines mk req.symbol (or_default req.interval (bytes "1d")) from
            (end_of parse_date now req.to_date))
          r

  run_chosen-Returns :
      (name : Str) (forward : ℕ) (closes : List F) (dates : List Time) (o : Option (Strategy F))
      → IfReturns IsSane o
      → length dates ≡ length closes
      → length closes + forward < 2 ^ 63
      → Returns
          (IsAnswer (Ran o forward closes dates))
          (run_chosen to_int mk parse_date now name forward closes dates o)
  unfolding run_chosen
  run_chosen-Returns name forward closes dates none sane same fits =
      returns (inl ((λ e. ground (arith, e)), refl))
  run_chosen-Returns name forward closes dates (some s) sane same fits =
      bind-Returns (run_backtest-Returns mk.format_day closes dates forward s same sane fits)
        λ r said. returns (elim said [
          | inl (few, e) ↦ rw e (inl (not_enough_data_lem (bars_needed s) (length closes), refl))
          | inr (enough, report) ↦ inr (s, refl, report)
        ])

  module _ (limit : ℕ)
      (short : (body : Str) (raw : List (List mk.Raw))
        → mk.bars_of body ≡ done raw
        → length raw ≤ limit) where
    reply_with-Returns :
        (req : BacktestRequest F) (fetched : Outcome (List F × List Time))
        → HasPeriods to_int req
        → limit + forward_or_default req.forward_days < 2 ^ 63
        → IfDone (AreKlines limit) fetched
        → Returns (IsAnswer (RanOn req fetched)) (reply_with to_int mk parse_date now req fetched)
    unfolding reply_with
    reply_with-Returns req (failed e) sane fits h = returns (inl ((λ e'. ground (arith, e')), refl))
    reply_with-Returns req (done (closes, dates)) sane fits (same, le) =
        Returns-weaken
          (run_chosen-Returns _ _ closes dates _ (choose_strategy-IsSane to_int _ req sane) same
            (omega (arith, le, fits)))
          λ reply.
            IsAnswer-weaken _ (RanOn req (done (closes, dates))) reply
              λ r ran. (closes, dates, refl, ran)

    reply_from-Returns :
        (req : BacktestRequest F) (from : Option Time)
        → parse_date req.from_date ≡ from
        → HasPeriods to_int req
        → limit + forward_or_default req.forward_days < 2 ^ 63
        → Returns (IsAnswer (RanFor (some req))) (reply_from to_int mk parse_date now req from)
    unfolding reply_from
    reply_from-Returns req none parsed sane fits = returns (inl ((λ e. ground (arith, e)), refl))
    reply_from-Returns req (some from) parsed sane fits =
        Returns-weaken
          (reply_with-Returns req _ sane fits
            (fetch_klines-IfDone mk limit short req.symbol _ from _))
          λ reply.
            IsAnswer-weaken _ (RanFor (some req)) reply λ r ran. (req, from, refl, parsed, ran)

    reply_to-Returns :
        (decoded : Option (BacktestRequest F))
        → ((req : BacktestRequest F) → decoded ≡ some req → HasPeriods to_int req)
        → ((req : BacktestRequest F)
            → decoded ≡ some req
            → limit + forward_or_default req.forward_days < 2 ^ 63)
        → Returns (IsAnswer (RanFor decoded)) (reply_to to_int mk parse_date now decoded)
    unfolding reply_to
    reply_to-Returns none sane fits = returns (inl ((λ e. ground (arith, e)), refl))
    reply_to-Returns (some req) sane fits =
        reply_from-Returns req (parse_date req.from_date) refl (sane req refl) (fits req refl)

    -- Whatever the exchange, the HTTP client and the decoder do, for parameters that convert to
    -- natural numbers, if fastPeriod, slowPeriod and period (or their defaults) are positive, no
    -- answer of the exchange has more than a number of bars, and that number and the forward days
    -- fit an int, then handleBacktest does not panic: it refuses another method than POST, or it
    -- answers an error without signals or the report of the events that the loop of the chosen
    -- strategy makes of the closes and dates that are fetched for the request: alternating buys
    -- and sells at rising bars, each with the date and the close of its bar, with a row for each
    -- event and the return of an account that follows them.
    pub handle_backtest-Returns :
        (method : Str) (decoded : Option (BacktestRequest F))
        → ((req : BacktestRequest F) → decoded ≡ some req → HasPeriods to_int req)
        → ((req : BacktestRequest F)
            → decoded ≡ some req
            → limit + forward_or_default req.forward_days < 2 ^ 63)
        → Returns
            (IsReply method (RanFor decoded))
            (handle_backtest to_int mk parse_date now method decoded)
    unfolding handle_backtest
    handle_backtest-Returns method decoded sane fits =
        if-Returns (str_eq method (bytes "POST"))
          (λ post.
            Returns-weaken (reply_to-Returns decoded sane fits)
              λ r h. IsReply-IsAnswer method (RanFor decoded) r post h)
          λ miss. returns miss
