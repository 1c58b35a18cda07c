-- ===== src/Dashboard/Custom.antt =====
-- cmd/dashboard/backtest.go and cmd/dashboard/livestrategy.go: the strategies in Python. The interpreter,
-- the script around the user's code and encoding/json are the operations of a record.
pub mod Harness
pub mod Scripts
use crypto_divergence_engine.Prelude.{
  ℕ, Bool, true, false, not, Option, none, some, List, [], ◌∷◌, ◌++◌, map, if◌then◌else◌, length,
  ◌==◌,
}
use crypto_divergence_engine.Prelude.Int.{ℤ, pos, negsuc}
use crypto_divergence_engine.Go.Text.{Str, bytes, str_eq}
use crypto_divergence_engine.Go.Time.{Time}
use crypto_divergence_engine.Go.Float.{Float}
use crypto_divergence_engine.Go.Checked.{◌>>=◌, ◌>>◌}
use crypto_divergence_engine.Dashboard.Market.{Market, Outcome, failed, done, OhlcvBar}
use crypto_divergence_engine.Dashboard.Bars.{fetch_full_klines}
use crypto_divergence_engine.Dashboard.Backtest.{TradeEvent}
use crypto_divergence_engine.Dashboard.Backtest.Report.{failure, compute_result}
use crypto_divergence_engine.Dashboard.Backtest.Handler.{
  Reply, method_not_allowed, answer, forward_or_default, end_of,
}

-- the slices that the script reads
pub record Columns (F : Type 0) : Type 0 where
  pub dates : List Str
  pub closes : List F
  pub opens : List F
  pub highs : List F
  pub lows : List F
  pub volumes : List F

abbrev pub columns_of : {F : Type 0} → List (OhlcvBar F) → Columns F
columns_of bars = record {
  dates = map OhlcvBar.date bars;
  closes = map OhlcvBar.close bars;
  opens = map OhlcvBar.open_price bars;
  highs = map OhlcvBar.high bars;
  lows = map OhlcvBar.low bars;
  volumes = map OhlcvBar.volume bars;
}

-- What Output returns: the bytes, whether there is an error, whether the context's deadline has passed,
-- and the Stderr of an ExitError (empty for another error).
pub record ScriptEnd : Type 0 where
  pub out : Str
  pub failed_run : Bool
  pub timed_out : Bool
  pub stderr : Str

pub record Python (F : Type 0) : Type 0 where
  -- whether LookPath finds python3
  pub installed : Bool
  -- the script with the user's code, and the data as JSON
  pub script_of : Str → Str
  pub encode : Columns F → Str
  -- a run with a timeout in seconds, a script and its input
  pub run : ℕ → Str → Str → ScriptEnd
  -- json.Unmarshal of the output: the events (with no negative barIdx) with the error, and the final position with the error
  pub decode_events : Str → Option (List (TradeEvent F) × Str)
  pub decode_position : Str → Option (ℤ × Str)

pub record CustomRequest : Type 0 where
  pub symbol : Str
  pub interval : Str
  pub from_date : Str
  pub to_date : Str
  pub forward_days : ℤ
  pub code : Str

-- the bytes of the dash in the messages
abbrev pub dash : Str
dash = 226 ∷ 128 ∷ 148 ∷ []

abbrev pub is_one : ℤ → Bool
is_one (pos n) = n == 1
is_one (negsuc n) = false

-- the end of computeCustomLiveSignal
unfoldable pub position_signal : Option (ℤ × Str) → Str
position_signal none = bytes "hold"
position_signal (some (position, error)) =
    if not (str_eq error [])
    then bytes "hold"
    else if is_one position
    then bytes "buy"
    else bytes "sell"

module _ {F : Type 0} (py : Python F) where
  abbrev pub run_code : ℕ → Str → List (OhlcvBar F) → ScriptEnd
  run_code seconds code bars = py.run seconds (py.script_of code) (py.encode (columns_of bars))

  unfoldable pub compute_custom_live_signal : Str → List (OhlcvBar F) → Str
  compute_custom_live_signal code bars =
      let end = run_code 10 code bars in
      if not py.installed
      then bytes "hold"
      else if end.failed_run
      then bytes "hold"
      else position_signal (py.decode_position end.out)

module _ {F : Type 0} ⦃fl : Float F⦄ (py : Python F) where
  -- from the end of Unmarshal on
  unfoldable pub reply_events : List F → ℕ → Option (List (TradeEvent F) × Str) → Option (Reply F)
  reply_events closes forward none = some (
      answer (
        failure (
          bytes "could not parse strategy output "
          ++ dash
          ++ bytes
              " check your code returns nothing from on_bar except \"buy\", \"sell\", or None")))
  reply_events closes forward (some (events, error)) =
      if str_eq error []
      then (compute_result events closes (length closes) 0 forward >>= λ result.
          some (answer result))
      else some (answer (failure error))

  -- from the end of the script on
  unfoldable pub reply_end : List F → ℕ → ScriptEnd → Option (Reply F)
  reply_end closes forward end =
      if not end.failed_run
      then reply_events closes forward (py.decode_events end.out)
      else if end.timed_out
      then some (
          answer (
            failure (
              bytes "strategy timed out after 20 seconds "
              ++ dash
              ++ bytes " check for infinite loops")))
      else if not (str_eq end.stderr [])
      then some (answer (failure end.stderr))
      else reply_events closes forward (py.decode_events end.out)

  module _ (mk : Market F) (parse_date : Str → Option Time) (now : Time) where
    -- from the end of fetchFullKlines on
    unfoldable pub reply_bars : CustomRequest → Outcome (List (OhlcvBar F)) → Option (Reply F)
    reply_bars req (failed e) = some (answer (failure (bytes "data fetch failed: " ++ e)))
    reply_bars req (done bars) =
        reply_end (map OhlcvBar.close bars) (forward_or_default req.forward_days)
          (run_code py 20 req.code bars)

    unfoldable pub reply_custom_from : CustomRequest → Option Time → Option (Reply F)
    reply_custom_from req none = some (answer (failure (bytes "invalid from date")))
    reply_custom_from req (some from) =
        reply_bars req
          (fetch_full_klines mk req.symbol req.interval from (end_of parse_date now req.to_date))

    unfoldable pub reply_custom : Option CustomRequest → Option (Reply F)
    reply_custom none = some (answer (failure (bytes "invalid request")))
    reply_custom (some req) =
        if py.installed
        then reply_custom_from req (parse_date req.from_date)
        else some (
            answer (
              failure (
                bytes "python3 not found "
                ++ dash
                ++ bytes " install it or rebuild the container")))

    -- `none` is a panic; `decoded` is what Decode makes of the body
    unfoldable pub handle_custom_backtest : Str → Option CustomRequest → Option (Reply F)
    handle_custom_backtest method decoded =
        if str_eq method (bytes "POST") then reply_custom decoded else some method_not_allowed
