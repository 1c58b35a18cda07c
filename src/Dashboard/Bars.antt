-- ===== src/Dashboard/Bars.antt =====
-- cmd/dashboard/backtest.go and cmd/dashboard/livestrategy.go: the bars with five numbers, and the change of
-- BTC that the charts show.
use crypto_divergence_engine.Prelude.{ℕ, Option, none, some, List, [], ◌∷◌, ◌++◌, if◌then◌else◌}
use crypto_divergence_engine.Prelude.Int.{ℤ, pos, ltb_ℤ}
use crypto_divergence_engine.Go.Text.{Str, bytes, str_eq, format_int}
use crypto_divergence_engine.Go.Time.{Time, of_milli}
use crypto_divergence_engine.Go.Float.{Float, gt}
use crypto_divergence_engine.Dashboard.Market.{
  Market, Outcome, failed, done, ◌>>=◌, OhlcvBar, Answer, fetch_raw, fetch_recent_raw, klines_url,
  recent_url,
}

abbrev pub or_empty : Option Str → Str
or_empty none = []
or_empty (some s) = s

abbrev pub or_zero : Option ℤ → ℤ
or_zero none = pos 0
or_zero (some n) = n

-- the end of a round of the loops over the bars
abbrev pub add_bar : {A : Type 0} → Option A → List A → List A
add_bar none bars = bars
add_bar (some b) bars = b ∷ bars

pub record Point (F : Type 0) : Type 0 where
  pub t : ℤ
  pub v : F

pub data BtcReply (F : Type 0) : Type 0 where
  bad_from fetch_failed : BtcReply F
  points : List (Point F) → BtcReply F

module _ {F : Type 0} ⦃fl : Float F⦄ (mk : Market F) where
  -- parseFloat of fetchFullKlines
  unfoldable pub cell_or_zero : mk.Raw → F
  cell_or_zero m = elim (mk.string_of m) [
    | none ↦ fl.of_nat 0
    | some text ↦ (mk.parse_float text).0
  ]

  -- pf of fetchRecentBars
  unfoldable pub cell_of : mk.Raw → F
  cell_of m = (mk.parse_float (or_empty (mk.string_of m))).0

  unfoldable pub full_bar_of : List mk.Raw → Option (OhlcvBar F)
  full_bar_of (opened ∷ o ∷ h ∷ l ∷ c ∷ v ∷ _) = elim (mk.int_of opened) [
    | none ↦ none
    | some ms ↦ some (record {
      date = mk.format_day (of_milli ms);
      open_price = cell_or_zero o;
      high = cell_or_zero h;
      low = cell_or_zero l;
      close = cell_or_zero c;
      volume = cell_or_zero v;
    })
  ]
  full_bar_of _ = none

  unfoldable pub full_bars_of : List (List mk.Raw) → List (OhlcvBar F)
  full_bars_of [] = []
  full_bars_of (bar ∷ raw) = add_bar (full_bar_of bar) (full_bars_of raw)

  unfoldable pub fetch_full_klines : Str → Str → Time → Time → Outcome (List (OhlcvBar F))
  fetch_full_klines symbol interval from upto = do
    raw ← fetch_raw mk (klines_url symbol interval from upto)
    done (full_bars_of raw)

  unfoldable pub recent_bar_of : List mk.Raw → Option (OhlcvBar F)
  recent_bar_of (opened ∷ o ∷ h ∷ l ∷ c ∷ v ∷ _) = some (record {
    date = mk.format_minute (of_milli (or_zero (mk.int_of opened)));
    open_price = cell_of o;
    high = cell_of h;
    low = cell_of l;
    close = cell_of c;
    volume = cell_of v;
  })
  recent_bar_of _ = none

  unfoldable pub recent_bars_of : List (List mk.Raw) → List (OhlcvBar F)
  recent_bars_of [] = []
  recent_bars_of (bar ∷ raw) = add_bar (recent_bar_of bar) (recent_bars_of raw)

  unfoldable pub fetch_recent_bars : Str → Str → ℕ → Outcome (List (OhlcvBar F))
  fetch_recent_bars symbol interval limit = do
    raw ← fetch_recent_raw mk (recent_url symbol interval limit)
    done (recent_bars_of raw)

  -- the loop of handleLiveBTC, from the base price so far
  unfoldable pub btc_points : F → List (List mk.Raw) → List (Point F)
  btc_points base [] = []
  btc_points base ((opened ∷ _ ∷ _ ∷ _ ∷ closed ∷ _) ∷ raw) =
      let c = cell_of closed in
      let base' = if fl.eq base (fl.of_nat 0) then c else base in
      let rest = btc_points base' raw in
      if gt base' (fl.of_nat 0)
      then record {
        t = or_zero (mk.int_of opened);
        v = fl.mul (fl.div (fl.sub c base') base') (fl.of_nat 100);
      }
        ∷ rest
      else rest
  btc_points base (_ ∷ raw) = btc_points base raw

  unfoldable pub btc_url : Str → ℤ → Str
  btc_url interval from =
      bytes "https://api.binance.com/api/v3/klines?symbol=BTCUSDT&interval="
      ++ interval
      ++ bytes "&startTime="
      ++ format_int from
      ++ bytes "&limit=500"

  -- what the body of the response is answered
  unfoldable pub btc_reply : Outcome (List (List mk.Raw)) → BtcReply F
  btc_reply (failed e) = points []
  btc_reply (done raw) = points (btc_points (fl.of_nat 0) raw)

  unfoldable pub btc_fetched : Outcome Answer → BtcReply F
  btc_fetched (failed e) = fetch_failed
  btc_fetched (done a) = btc_reply (mk.bars_of a.body)

  -- `from` is what ParseInt makes of the query's value
  unfoldable pub handle_live_btc : Option ℤ → Str → BtcReply F
  handle_live_btc none interval = bad_from
  handle_live_btc (some from) interval =
      let interval' = if str_eq interval [] then bytes "1m" else interval in
      if ltb_ℤ (pos 0) from then btc_fetched (mk.get (btc_url interval' from)) else bad_from
