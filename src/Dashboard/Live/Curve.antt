-- ===== src/Dashboard/Live/Curve.antt =====
-- cmd/dashboard/livestrategy.go: the equity curve of a session, which keeps its last 2000 points.
use crypto_divergence_engine.Prelude.{
  ◌-◌, ◌≤◌, ◌≡◌, refl, sym, ap, ◌∙◌, List, [], ◌∷◌, ◌++◌, append_assoc, append-nil, if◌then◌else◌,
  length, arith, drop, take_last, take_last-append, take_last-all, length-take_last, ltb,
}
use crypto_divergence_engine.Go.Text.{Str}
use crypto_divergence_engine.Go.Time.{Time, unix_milli}
use crypto_divergence_engine.Go.Float.{Float}
use crypto_divergence_engine.Dashboard.Live.{
  LiveSession, EquityPoint, apply_signal, record_point, trade, buy, sell, total_value, max_points,
  new_session, snapshot, current_pnl,
}
use crypto_divergence_engine.Dashboard.Live.Trades.{Signal, run}

kept :
    {A : Type 0}
    → (curve : List A)
    → (if ltb max_points (length curve) then drop (length curve - max_points) curve else curve)
      ≡ take_last max_points curve
kept curve = ground (arith, take_last-all max_points curve)

module _ {F : Type 0} ⦃fl : Float F⦄ where
  abbrev pub after : Signal F → LiveSession F → LiveSession F
  after e s = apply_signal e.signal e.price e.now e.entered s

  -- The point of each signal: its time, and the P&L that the session has then.
  abbrev pub points : List (Signal F) → LiveSession F → List (EquityPoint F)
  points [] s = []
  points (e ∷ es) s = record { t = unix_milli e.now; v = (after e s).pnl } ∷ points es (after e s)

  trade-fields :
      (signal : Str) (price : F) (now entered : Time) (s : LiveSession F)
      → ((trade signal price now entered s).equity_curve ≡ s.equity_curve)
        × ((trade signal price now entered s).notional ≡ s.notional)
  unfolding trade buy sell
  trade-fields signal price now entered s = ground arith

  after-equity_curve :
      (e : Signal F) (s : LiveSession F)
      → (after e s).equity_curve
        ≡ take_last max_points
            (s.equity_curve ++ record { t = unix_milli e.now; v = (after e s).pnl } ∷ [])
  unfolding apply_signal record_point
  after-equity_curve e s =
      let s0 : LiveSession F = record s { current_price = e.price; signal = e.signal } in
      let p : EquityPoint F = record { t = unix_milli e.now; v = (after e s).pnl } in
      kept ((trade e.signal e.price e.now e.entered s0).equity_curve ++ p ∷ [])
      ∙ ap (λ c. take_last max_points (c ++ p ∷ []))
          (trade-fields e.signal e.price e.now e.entered s0).0

  run-equity_curve :
      (es : List (Signal F)) (s : LiveSession F)
      → length s.equity_curve ≤ max_points
      → (run es s).equity_curve ≡ take_last max_points (s.equity_curve ++ points es s)
  unfolding run
  run-equity_curve [] s le = sym (
      ap (take_last max_points) (append-nil s.equity_curve)
      ∙ take_last-all max_points s.equity_curve le)
  run-equity_curve (e ∷ es) s le =
      let p : EquityPoint F = record { t = unix_milli e.now; v = (after e s).pnl } in
      let c = after-equity_curve e s in
      let le' : length (after e s).equity_curve ≤ max_points =
        rw c (omega (arith, length-take_last max_points (s.equity_curve ++ p ∷ []))) in
      run-equity_curve es (after e s) le'
      ∙ ap (λ l. take_last max_points (l ++ points es (after e s))) c
      ∙ take_last-append max_points (s.equity_curve ++ p ∷ []) (points es (after e s))
      ∙ ap (take_last max_points) (append_assoc s.equity_curve (p ∷ []) (points es (after e s)))

  -- The equity curve of a session that has just started, after any signals, is the last 2000 of
  -- the points that the signals made, each with its time and the P&L at it; and it has at most
  -- 2000.
  pub equity_curve-eq-take_last :
      (id symbol strategy interval code : Str) (start : Time) (es : List (Signal F))
      → let s = new_session {F = F} id symbol strategy interval code start in
        ((run es s).equity_curve ≡ take_last 2000 (points es s))
        × (length (run es s).equity_curve ≤ 2000)
  unfolding new_session
  equity_curve-eq-take_last id symbol strategy interval code start es =
      let s = new_session {F = F} id symbol strategy interval code start in
      let e = run-equity_curve es s (omega arith) in
      (e, rw e (omega (arith, length-take_last max_points (points es s))))

  after-settled :
      (e : Signal F) (s : LiveSession F)
      → ((after e s).pnl ≡ current_pnl (after e s)) × ((after e s).notional ≡ s.notional)
  unfolding apply_signal record_point current_pnl total_value
  after-settled e s =
      let s0 : LiveSession F = record s { current_price = e.price; signal = e.signal } in
      (refl, (trade-fields e.signal e.price e.now e.entered s0).1)

  run-settled :
      (es : List (Signal F)) (s : LiveSession F)
      → s.pnl ≡ current_pnl s
      → ((run es s).pnl ≡ current_pnl (run es s)) × ((run es s).notional ≡ s.notional)
  unfolding run
  run-settled [] s h = (h, refl)
  run-settled (e ∷ es) s h =
      let (now, same) = after-settled e s in
      let (later, as_before) = run-settled es (after e s) now in (later, as_before ∙ same)

  -- The snapshot of a session after at least one signal has as its P&L that of its total value
  -- against the 10000 that the session started with, in percent.
  pub snapshot-pnl :
      (id symbol strategy interval code : Str) (start : Time) (e : Signal F) (es : List (Signal F))
      → let snap = snapshot (run (e ∷ es) (new_session id symbol strategy interval code start)) in
        snap.pnl
        ≡ fl.mul
            (fl.div (fl.sub snap.total_value (fl.of_nat 10_000)) (fl.of_nat 10_000))
            (fl.of_nat 100)
  unfolding run new_session snapshot current_pnl
  snapshot-pnl id symbol strategy interval code start e es =
      let s = new_session {F = F} id symbol strategy interval code start in
      let (settled, same) = run-settled es (after e s) (after-settled e s).0 in
      settled
      ∙ ap (λ n. fl.mul (fl.div (fl.sub (total_value (run es (after e s))) n) n) (fl.of_nat 100))
          (same ∙ (after-settled e s).1)
