-- ===== src/Dashboard/Ticks.antt =====
-- cmd/dashboard/livestrategy.go: a tick of a session, and the ticks of runSession. The clock is read at
-- `now` and, for the entry of a position, at `entered`; `marshal_snapshot` is encoding/json's. `none` is a
-- panic. The context only ends the ticks.
pub mod Steady
use crypto_divergence_engine.Prelude.{
  ℕ, zero, suc, ◌+◌, Option, none, some, List, [], ◌∷◌, map, if◌then◌else◌, ltb, length,
}
use crypto_divergence_engine.Go.Text.{Str, bytes, str_eq}
use crypto_divergence_engine.Go.Time.{Time}
use crypto_divergence_engine.Go.Float.{Float}
use crypto_divergence_engine.Go.Checked.{◌>>=◌, ◌>>◌}
use crypto_divergence_engine.Dashboard.Hub.{Hub, broadcast}
use crypto_divergence_engine.Dashboard.Market.{
  Market, Outcome, failed, done, OhlcvBar, fetch_recent_closes,
}
use crypto_divergence_engine.Dashboard.Bars.{fetch_recent_bars}
use crypto_divergence_engine.Dashboard.Custom.{Python, compute_custom_live_signal}
use crypto_divergence_engine.Dashboard.Signals.{at_last, compute_live_signal}
use crypto_divergence_engine.Dashboard.Live.{
  LiveSession, LiveSnapshot, snapshot, apply_signal, track_btc,
}

-- What the two branches of a tick leave: it logs an error or has too few bars, or it goes on.
pub data Update (F : Type 0) : Type 0 where
  returned : Update F
  updated : LiveSession F → Update F

abbrev pub closes_or_nil : {F : Type 0} → Outcome (List F) → List F
closes_or_nil (failed e) = []
closes_or_nil (done closes) = closes

module _ {F : Type 0} ⦃fl : Float F⦄ (marshal_snapshot : LiveSnapshot F → Str) where
  module _ (mk : Market F) (py : Python F) (now entered : Time) where
    -- the branch of a custom strategy, on the bars that were fetched
    unfoldable pub custom_update : LiveSession F → Outcome (List (OhlcvBar F)) → Option (Update F)
    custom_update s (failed e) = some returned
    custom_update s (done bars) = do
      price ← at_last (map OhlcvBar.close bars)
      let signal = compute_custom_live_signal py s.code bars
      some (updated (apply_signal signal price now entered s))

    unfoldable pub signal_update : LiveSession F → List F → Option (Update F)
    signal_update s closes = do
      signal ← compute_live_signal s.strategy closes
      price ← at_last closes
      some (updated (apply_signal signal price now entered s))

    -- the other branch, on the closes that were fetched
    unfoldable pub builtin_update : LiveSession F → Outcome (List F) → Option (Update F)
    builtin_update s (failed e) = some returned
    builtin_update s (done closes) =
        if ltb (length closes) 2 then some returned else signal_update s closes

    unfoldable pub update : LiveSession F → Option (Update F)
    update s =
        if str_eq s.strategy (bytes "custom")
        then custom_update s (fetch_recent_bars mk s.symbol s.interval 200)
        else builtin_update s (fetch_recent_closes mk s.symbol s.interval 200)

    -- from the benchmark on
    unfoldable pub finish : LiveSession F → Hub → Update F → LiveSession F × Hub
    finish s h returned = (s, h)
    finish s h (updated s') =
        let s'' =
          track_btc (closes_or_nil (fetch_recent_closes mk (bytes "BTCUSDT") (bytes "1m") 1)) s' in
        (s'', broadcast (bytes "strategy_tick") (marshal_snapshot (snapshot s'')) h)

    unfoldable pub tick : LiveSession F → Hub → Option (LiveSession F × Hub)
    tick s h = do u ← update s; some (finish s h u)

  -- the n-th tick of a session and those after it, `count` of them
  unfoldable pub run_session :
      (ℕ → Market F)
      → (ℕ → Python F)
      → (ℕ → Time)
      → (ℕ → Time)
      → ℕ
      → ℕ
      → LiveSession F × Hub
      → Option (LiveSession F × Hub)
  run_session mk py now entered n zero state = some state
  run_session mk py now entered n (suc count) state = do
    state' ← tick (mk n) (py n) (now n) (entered n) state.0 state.1
    run_session mk py now entered (n + 1) count state'
