-- ===== src/Dashboard/Custom/Scripts.antt =====
-- cmd/dashboard/backtest.go: what a request for a backtest of a script is answered.
use crypto_divergence_engine.Prelude.{
  ℕ, suc, ◌+◌, ◌^◌, ◌<◌, ◌≤◌, ◌≡◌, ◌≢◌, refl, sym, ap, false, not, Option, none, some, List, [],
  ◌∷◌, length, length-map, map, arith, inl, inr,
}
use mathlib.Core.Path.{subst}
use crypto_divergence_engine.Go.Text.{Str, bytes, str_eq, str_eq_refl, str_eq_iff}
use crypto_divergence_engine.Go.Time.{Time}
use crypto_divergence_engine.Go.Float.{Float}
use crypto_divergence_engine.Go.Checked.{Returns, returns, bind-Returns, if-Returns, Returns-weaken}
use crypto_divergence_engine.Dashboard.Market.{
  Market, Outcome, failed, done, OhlcvBar, fetch_raw, klines_url,
}
use crypto_divergence_engine.Dashboard.Market.Klines.{bind-IfDone, fetch_raw-IfDone, IfDone}
use crypto_divergence_engine.Dashboard.Bars.{add_bar, full_bar_of, full_bars_of, fetch_full_klines}
use crypto_divergence_engine.Dashboard.Backtest.{TradeEvent}
use crypto_divergence_engine.Dashboard.Backtest.Report.{BacktestResult, failure}
use crypto_divergence_engine.Dashboard.Backtest.Report.Rows.{InBars}
use crypto_divergence_engine.Dashboard.Backtest.Report.Whole.{Reports, compute_result-Returns}
use crypto_divergence_engine.Dashboard.Backtest.Handler.{answer, forward_or_default, end_of}
use crypto_divergence_engine.Dashboard.Backtest.Handler.Replies.{
  IsAnswer, IsAnswer-weaken, IsReply, IsReply-IsAnswer,
}
use crypto_divergence_engine.Dashboard.Custom.{
  Python, CustomRequest, ScriptEnd, run_code, reply_events, reply_end, reply_bars,
  reply_custom_from, reply_custom, handle_custom_backtest,
}

not_empty : (s : Str) → str_eq s [] ≡ false → s ≢ []
not_empty s h e = absurd (ground (arith, h, ap (λ t. str_eq t []) e, str_eq_refl []))

add_bar-le :
    {A : Type 0} {n : ℕ} (o : Option A) (bars : List A)
    → length bars ≤ n
    → length (add_bar o bars) ≤ suc n
add_bar-le none bars h = omega arith
add_bar-le (some b) bars h = omega arith

module _ {F : Type 0} ⦃fl : Float F⦄ where
  failure-IsAnswer :
      (P : BacktestResult F → Type 0) (e : Str)
      → e ≢ []
      → Returns (IsAnswer P) (some (answer (failure e)))
  failure-IsAnswer P e h = returns (inl (h, refl))

  -- The events of a decoded output, if they can be decoded, lie in the bars.
  abbrev pub AreInBars : ℕ → Option (List (TradeEvent F) × Str) → Type 0
  AreInBars n none = Unit
  AreInBars n (some (events, error)) = InBars n events

  -- The report of the decoded events on the closes.
  abbrev RanEvents : List F → ℕ → Option (List (TradeEvent F) × Str) → BacktestResult F → Type 0
  RanEvents closes forward decoded r =
      (events : List (TradeEvent F)) × (decoded ≡ some (events, []))
      × Reports closes forward events r

  module _ (py : Python F) where
    reply_events-Returns :
        (closes : List F) (forward : ℕ) (o : Option (List (TradeEvent F) × Str))
        → AreInBars (length closes) o
        → length closes + forward < 2 ^ 63
        → Returns (IsAnswer (RanEvents closes forward o)) (reply_events py closes forward o)
    unfolding reply_events
    reply_events-Returns closes forward none h fits = failure-IsAnswer _ _ λ e. ground (arith, e)
    reply_events-Returns closes forward (some (events, error)) h fits =
        if-Returns (str_eq error [])
          (λ empty.
            bind-Returns (compute_result-Returns events closes 0 forward h (omega arith) fits)
              λ r reports.
                returns (
                  inr
                    (events, ap (λ e. some (events, e)) ((str_eq_iff error []).0 empty), reports)))
          λ full. failure-IsAnswer _ error (not_empty error full)

    reply_end-Returns :
        (closes : List F) (forward : ℕ) (end : ScriptEnd)
        → AreInBars (length closes) (py.decode_events end.out)
        → length closes + forward < 2 ^ 63
        → Returns
            (IsAnswer (RanEvents closes forward (py.decode_events end.out)))
            (reply_end py closes forward end)
    unfolding reply_end
    reply_end-Returns closes forward end h fits =
        if-Returns (not end.failed_run)
          (λ e. reply_events-Returns closes forward (py.decode_events end.out) h fits)
          λ e.
            if-Returns end.timed_out (λ e. failure-IsAnswer _ _ λ e. ground (arith, e))
              λ e.
                if-Returns (not (str_eq end.stderr []))
                  (λ some_text.
                    failure-IsAnswer _ end.stderr
                      (not_empty end.stderr (ground (arith, some_text))))
                  λ e. reply_events-Returns closes forward (py.decode_events end.out) h fits

    module _ (mk : Market F) (parse_date : Str → Option Time) (now : Time) where
      length-full_bars_of : (raw : List (List mk.Raw)) → length (full_bars_of mk raw) ≤ length raw
      unfolding full_bars_of
      length-full_bars_of [] = omega arith
      length-full_bars_of (bar ∷ raw) =
          add_bar-le (full_bar_of mk bar) (full_bars_of mk raw) (length-full_bars_of raw)

      -- The report of the events of the request's script, run on the bars that were fetched.
      abbrev RanBars : CustomRequest → Outcome (List (OhlcvBar F)) → BacktestResult F → Type 0
      RanBars req fetched r =
          (bars : List (OhlcvBar F)) × (fetched ≡ done bars)
          × RanEvents (map OhlcvBar.close bars) (forward_or_default req.forward_days)
              (py.decode_events (run_code py 20 req.code bars).out) r

      -- The report of the decoded request, on the bars that are fetched for it.
      abbrev pub RanScript : Option CustomRequest → BacktestResult F → Type 0
      RanScript decoded r =
          (req : CustomRequest) × (from : Time) × (decoded ≡ some req)
          × (parse_date req.from_date ≡ some from)
          × RanBars req
              (fetch_full_klines mk req.symbol req.interval from
                (end_of parse_date now req.to_date))
              r

      module _ (limit : ℕ)
          (short : (body : Str) (raw : List (List mk.Raw))
            → mk.bars_of body ≡ done raw
            → length raw ≤ limit) where
        fetch_full_klines-IfDone :
            (symbol interval : Str) (from upto : Time)
            → IfDone (λ bars. length bars ≤ limit) (fetch_full_klines mk symbol interval from upto)
        unfolding fetch_full_klines
        fetch_full_klines-IfDone symbol interval from upto =
            bind-IfDone (λ raw. length raw ≤ limit) (λ bars. length bars ≤ limit)
              (fetch_raw mk (klines_url symbol interval from upto))
              (λ raw. done (full_bars_of mk raw))
              (fetch_raw-IfDone mk limit short (klines_url symbol interval from upto))
              λ raw le. omega (arith, le, length-full_bars_of raw)

        reply_bars-Returns :
            (req : CustomRequest) (fetched : Outcome (List (OhlcvBar F)))
            → ((bars : List (OhlcvBar F))
                → fetched ≡ done bars
                → AreInBars (length bars) (py.decode_events (run_code py 20 req.code bars).out))
            → limit + forward_or_default req.forward_days < 2 ^ 63
            → IfDone (λ bars. length bars ≤ limit) fetched
            → Returns (IsAnswer (RanBars req fetched)) (reply_bars py mk parse_date now req fetched)
        unfolding reply_bars
        reply_bars-Returns req (failed e) in_bars fits le =
            failure-IsAnswer _ _ λ e'. ground (arith, e')
        reply_bars-Returns req (done bars) in_bars fits le =
            Returns-weaken
              (reply_end-Returns (map OhlcvBar.close bars) _ (run_code py 20 req.code bars)
                (subst (λ n. AreInBars n (py.decode_events (run_code py 20 req.code bars).out))
                  (sym (length-map bars OhlcvBar.close)) (in_bars bars refl))
                (omega (arith, fits, le, length-map bars OhlcvBar.close)))
              λ reply. IsAnswer-weaken _ (RanBars req (done bars)) reply λ r ran. (bars, refl, ran)

        reply_custom-Returns :
            (decoded : Option CustomRequest)
            → ((req : CustomRequest) (from : Time) (bars : List (OhlcvBar F))
                → decoded ≡ some req
                → parse_date req.from_date ≡ some from
                → fetch_full_klines mk req.symbol req.interval from
                    (end_of parse_date now req.to_date)
                  ≡ done bars
                → AreInBars (length bars) (py.decode_events (run_code py 20 req.code bars).out))
            → ((req : CustomRequest)
                → decoded ≡ some req
                → limit + forward_or_default req.forward_days < 2 ^ 63)
            → Returns (IsAnswer (RanScript decoded)) (reply_custom py mk parse_date now decoded)
        unfolding reply_custom reply_custom_from
        reply_custom-Returns none in_bars fits = failure-IsAnswer _ _ λ e. ground (arith, e)
        reply_custom-Returns (some req) in_bars fits =
            if-Returns py.installed (λ e. dated (parse_date req.from_date) refl)
              λ e. failure-IsAnswer _ _ λ e. ground (arith, e)
          where
            dated :
                (from : Option Time)
                → parse_date req.from_date ≡ from
                → Returns
                    (IsAnswer (RanScript (some req)))
                    (reply_custom_from py mk parse_date now req from)
            dated none parsed = failure-IsAnswer _ _ λ e. ground (arith, e)
            dated (some from) parsed =
                Returns-weaken
                  (reply_bars-Returns req _ (λ bars e. in_bars req from bars refl parsed e)
                    (fits req refl) (fetch_full_klines-IfDone req.symbol req.interval from _))
                  λ reply.
                    IsAnswer-weaken _ (RanScript (some req)) reply
                      λ r ran. (req, from, refl, parsed, ran)

        -- If the events decoded from the output of the request's script, run on the bars that are
        -- fetched for it, lie in those bars, no answer of the exchange has more than a number of
        -- bars, and that number and the forward days fit an int, then handleCustomBacktest does
        -- not panic, however the script ends: it refuses another method than POST, or it answers
        -- an error without signals or the report of the events decoded from the script's output,
        -- on the closes of the bars that are fetched for the request.
        pub handle_custom_backtest-Returns :
            (method : Str) (decoded : Option CustomRequest)
            → ((req : CustomRequest) (from : Time) (bars : List (OhlcvBar F))
                → decoded ≡ some req
                → parse_date req.from_date ≡ some from
                → fetch_full_klines mk req.symbol req.interval from
                    (end_of parse_date now req.to_date)
                  ≡ done bars
                → AreInBars (length bars) (py.decode_events (run_code py 20 req.code bars).out))
            → ((req : CustomRequest)
                → decoded ≡ some req
                → limit + forward_or_default req.forward_days < 2 ^ 63)
            → Returns
                (IsReply method (RanScript decoded))
                (handle_custom_backtest py mk parse_date now method decoded)
        unfolding handle_custom_backtest
        handle_custom_backtest-Returns method decoded in_bars fits =
            if-Returns (str_eq method (bytes "POST"))
              (λ post.
                Returns-weaken (reply_custom-Returns decoded in_bars fits)
                  λ r h. IsReply-IsAnswer method (RanScript decoded) r post h)
              λ miss. returns miss
