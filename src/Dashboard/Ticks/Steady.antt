-- ===== src/Dashboard/Ticks/Steady.antt =====
-- cmd/dashboard/livestrategy.go: what a session has become after some ticks.
use crypto_divergence_engine.Prelude.{
  ℕ, zero, suc, ◌+◌, ◌<◌, ◌≡◌, refl, sym, ap, ◌∙◌, Bool, true, false, List, [], ◌∷◌, ◌++◌, map, ltb,
  length, length-map, arith, append_assoc, ◌-◌,
}
use crypto_divergence_engine.Go.Text.{Str, bytes, str_eq}
use crypto_divergence_engine.Go.Time.{Time}
use crypto_divergence_engine.Go.Float.{Float}
use crypto_divergence_engine.Go.Checked.{
  Returns, returns, bind-Returns, at-Returns, if-Returns, Returns-weaken,
}
use crypto_divergence_engine.Dashboard.Hub.{Hub}
use crypto_divergence_engine.Dashboard.Market.{
  Market, Outcome, failed, done, OhlcvBar, fetch_recent_closes,
}
use crypto_divergence_engine.Dashboard.Market.Klines.{IfDone}
use crypto_divergence_engine.Dashboard.Bars.{fetch_recent_bars}
use crypto_divergence_engine.Dashboard.Custom.{Python}
use crypto_divergence_engine.Dashboard.Signals.Total.{compute_live_signal-Returns}
use crypto_divergence_engine.Dashboard.Live.{
  LiveSession, LiveSnapshot, apply_signal, track_btc, record_point, trade, buy, sell,
}
use crypto_divergence_engine.Dashboard.Live.Trades.{Signal, IsValid, kinds, turns, step_lem}
use crypto_divergence_engine.Dashboard.Ticks.{
  Update, returned, updated, custom_update, signal_update, builtin_update, update, finish, tick,
  run_session,
}

module _ {F : Type 0} ⦃fl : Float F⦄ where
  -- s' is s after some signals: its position and its trades are those that the signals call for, and it
  -- trades the same symbol by the same strategy.
  abbrev pub HasFollowed : Bool → LiveSession F → LiveSession F → Type 0
  HasFollowed long s s' =
      (signals : List Str) × (long' : Bool) × ((s'.strategy ≡ s.strategy)
        × (s'.symbol ≡ s.symbol)
        × (s'.interval ≡ s.interval))
      × IsValid long' s'
      × ((xs : List Str) → kinds s' ++ turns long' xs ≡ kinds s ++ turns long (signals ++ xs))

  apply_signal-fields :
      (signal : Str) (price : F) (now entered : Time) (s : LiveSession F)
      → ((apply_signal signal price now entered s).strategy ≡ s.strategy)
        × ((apply_signal signal price now entered s).symbol ≡ s.symbol)
        × ((apply_signal signal price now entered s).interval ≡ s.interval)
  unfolding apply_signal record_point trade buy sell
  apply_signal-fields signal price now entered s = ground arith

  apply_signal-HasFollowed :
      (signal : Str) (price : F) (now entered : Time) (long : Bool) (s : LiveSession F)
      → IsValid long s
      → HasFollowed long s (apply_signal signal price now entered s)
  apply_signal-HasFollowed signal price now entered long s h =
      let e : Signal F = record { signal = signal; price = price; now = now; entered = entered } in
      let (long', h', turned) = step_lem long e s h in
      (signal ∷ [], long', apply_signal-fields signal price now entered s, h', turned)

  track_btc-HasFollowed :
      (closes : List F) (long : Bool) (s s' : LiveSession F)
      → HasFollowed long s s'
      → HasFollowed long s (track_btc closes s')
  unfolding track_btc
  track_btc-HasFollowed [] long s s' h = h
  track_btc-HasFollowed (price ∷ rest) long s s' (signals, true, same, valid, turned) =
      (signals, true, same, valid, turned)
  track_btc-HasFollowed (price ∷ rest) long s s' (signals, false, same, valid, turned) =
      (signals, false, same, valid, turned)

  HasFollowed-trans :
      (long : Bool) (s s' s'' : LiveSession F) (h : HasFollowed long s s')
      → HasFollowed h.1 s' s''
      → HasFollowed long s s''
  HasFollowed-trans long s s' s'' (signals, long', (strategy, symbol, interval), valid, turned)
        (signals', long'', (strategy', symbol', interval'), valid', turned') =
      (
        signals ++ signals',
        long'',
        (strategy' ∙ strategy, symbol' ∙ symbol, interval' ∙ interval),
        valid',
        (λ xs.
            turned' xs
            ∙ turned (signals' ++ xs)
            ∙ ap (λ l. kinds s ++ turns long l) (sym (append_assoc signals signals' xs))),
      )

  -- What a tick's branch leaves has followed some signals.
  abbrev HasUpdated : Bool → LiveSession F → Update F → Type 0
  HasUpdated long s returned = Unit
  HasUpdated long s (updated s') = HasFollowed long s s'

  -- A custom strategy has some bars.
  abbrev pub HasBars : Market F → LiveSession F → Type 0
  HasBars mk s =
      str_eq s.strategy (bytes "custom") ≡ true
      → IfDone (λ bars. 0 < length bars) (fetch_recent_bars mk s.symbol s.interval 200)

  module _ (marshal_snapshot : LiveSnapshot F → Str) (mk : Market F) (py : Python F)
      (now entered : Time) (long : Bool) (s : LiveSession F) (valid : IsValid long s) where
    custom_update-Returns :
        (fetched : Outcome (List (OhlcvBar F)))
        → IfDone (λ bars. 0 < length bars) fetched
        → Returns (HasUpdated long s) (custom_update marshal_snapshot mk py now entered s fetched)
    unfolding custom_update
    custom_update-Returns (failed e) h = returns tt
    custom_update-Returns (done bars) h =
        bind-Returns
          (at-Returns (map OhlcvBar.close bars) (length (map OhlcvBar.close bars) - 1)
            (omega (arith, h, length-map bars OhlcvBar.close)))
          λ price e. returns (apply_signal-HasFollowed _ price now entered long s valid)

    builtin_update-Returns :
        (fetched : Outcome (List F))
        → Returns (HasUpdated long s) (builtin_update marshal_snapshot mk py now entered s fetched)
    unfolding builtin_update signal_update
    builtin_update-Returns (failed e) = returns tt
    builtin_update-Returns (done closes) =
        if-Returns (ltb (length closes) 2) (λ few. returns tt)
          λ enough.
            bind-Returns (compute_live_signal-Returns s.strategy closes (ground (arith, enough)))
              λ signal is.
                bind-Returns (at-Returns closes (length closes - 1) (ground (arith, enough)))
                  λ price e.
                    returns (apply_signal-HasFollowed signal price now entered long s valid)

    finish-HasFollowed :
        (h : Hub) (u : Update F)
        → HasUpdated long s u
        → HasFollowed long s (finish marshal_snapshot mk py now entered s h u).0
    unfolding finish
    finish-HasFollowed h returned followed = ([], long, (refl, refl, refl), valid, λ xs. refl)
    finish-HasFollowed h (updated s') followed = track_btc-HasFollowed _ long s s' followed

    tick-Returns :
        (h : Hub)
        → HasBars mk s
        → Returns (λ next. HasFollowed long s next.0) (tick marshal_snapshot mk py now entered s h)
    unfolding tick update
    tick-Returns h bars =
        bind-Returns
          (if-Returns (str_eq s.strategy (bytes "custom"))
            (λ custom.
              custom_update-Returns (fetch_recent_bars mk s.symbol s.interval 200) (bars custom))
            λ builtin. builtin_update-Returns (fetch_recent_closes mk s.symbol s.interval 200))
          λ u followed. returns (finish-HasFollowed h u followed)

  HasBars-same :
      (mk : Market F) (s s' : LiveSession F)
      → s'.strategy ≡ s.strategy
      → s'.symbol ≡ s.symbol
      → s'.interval ≡ s.interval
      → HasBars mk s
      → HasBars mk s'
  HasBars-same mk s s' strategy symbol interval h custom =
      rw (symbol, interval) (h (sym (ap (λ t. str_eq t (bytes "custom")) strategy) ∙ custom))

  -- From a valid session on, if a custom strategy gets some bars whenever its bars are fetched,
  -- any number of ticks, whatever the exchange, the scripts and the clock do, does not panic, and
  -- leaves the session valid, with its strategy and symbol, and with the trades that some
  -- sequence of signals calls for after those it had.
  pub run_session-Returns :
      (marshal_snapshot : LiveSnapshot F → Str) (mk : ℕ → Market F) (py : ℕ → Python F)
      (now entered : ℕ → Time) (n count : ℕ) (long : Bool) (s : LiveSession F) (h : Hub)
      → IsValid long s
      → ((k : ℕ) → HasBars (mk k) s)
      → Returns
          (λ next. HasFollowed long s next.0)
          (run_session marshal_snapshot mk py now entered n count (s, h))
  unfolding run_session
  run_session-Returns marshal_snapshot mk py now entered n zero long s h valid bars =
      returns ([], long, (refl, refl, refl), valid, λ xs. refl)
  run_session-Returns marshal_snapshot mk py now entered n (suc count) long s h valid bars =
      bind-Returns
        (tick-Returns marshal_snapshot (mk n) (py n) (now n) (entered n) long s valid h (bars n))
        λ next followed.
          let (signals, long', (strategy, symbol, interval), valid', turned) = followed in
          Returns-weaken
            (run_session-Returns marshal_snapshot mk py now entered (n + 1) count long' next.0
              next.1 valid' (λ k. HasBars-same (mk k) s next.0 strategy symbol interval (bars k)))
            λ last later. HasFollowed-trans long s next.0 last.0 followed later
