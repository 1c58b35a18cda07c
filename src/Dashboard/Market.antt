-- ===== src/Dashboard/Market.antt =====
-- cmd/dashboard/backtest.go and cmd/dashboard/livestrategy.go: the requests for klines. The exchange, the
-- HTTP client, encoding/json, strconv.ParseFloat and Time.Format are the operations of a record.
pub mod Klines
use crypto_divergence_engine.Prelude.{
  ℕ, Bool, true, false, not, Option, none, some, List, [], ◌∷◌, ◌++◌, if◌then◌else◌, ltb, ◌==◌,
  length, get_elem?,
}
use crypto_divergence_engine.Prelude.Int.{ℤ, pos}
use crypto_divergence_engine.Go.Text.{Str, bytes, str_eq, format_int}
use crypto_divergence_engine.Go.Time.{Time, unix_milli, of_milli}
use crypto_divergence_engine.Go.Float.{Float}

-- A value, or an error with its text.
pub data Outcome (A : Type 0) : Type 0 where
  failed : Str → Outcome A
  done : A → Outcome A

infixl 5 ◌>>=◌ ◌>>◌
abbrev pub ◌>>=◌ : {A B : Type 0} → Outcome A → (A → Outcome B) → Outcome B
failed e >>= f = failed e
done a >>= f = f a

abbrev pub ◌>>◌ : {B : Type 0} → Outcome (Unit {0}) → Outcome B → Outcome B
m >> k = m >>= λ _. k

-- A response with what ReadAll reads of its body, and ReadAll's error.
pub record Answer : Type 0 where
  pub status : ℕ
  pub body : Str
  pub read_error : Option Str

pub record Market (F : Type 0) : Type 1 where
  -- json.RawMessage
  pub Raw : Type 0
  -- binanceClient.Get(url)
  pub get : Str → Outcome Answer
  -- json.Unmarshal into [][]json.RawMessage, and the msg of a struct that has one
  pub bars_of : Str → Outcome (List (List Raw))
  pub message_of : Str → Option Str
  -- json.Unmarshal of a cell into an int64 and into a string
  pub int_of : Raw → Option ℤ
  pub string_of : Raw → Option Str
  -- strconv.ParseFloat: the value, and whether there is no error
  pub parse_float : Str → F × Bool
  -- Format with the layout of a day, and of a minute
  pub format_day : Time → Str
  pub format_minute : Time → Str

pub record OhlcvBar (F : Type 0) : Type 0 where
  pub date : Str
  pub open_price : F
  pub high : F
  pub low : F
  pub close : F
  pub volume : F

-- strings.ReplaceAll(s, "-", "")
unfoldable pub without_dashes : Str → Str
without_dashes [] = []
without_dashes (c ∷ s) = let rest = without_dashes s in if c == b'-' then rest else c ∷ rest

unfoldable pub klines_url : Str → Str → Time → Time → Str
klines_url symbol interval from upto =
    bytes "https://api.binance.com/api/v3/klines?symbol="
    ++ symbol
    ++ bytes "&interval="
    ++ interval
    ++ bytes "&startTime="
    ++ format_int (unix_milli from)
    ++ bytes "&endTime="
    ++ format_int (unix_milli upto)
    ++ bytes "&limit=1000"

unfoldable pub recent_url : Str → Str → ℕ → Str
recent_url symbol interval limit =
    bytes "https://api.binance.com/api/v3/klines?symbol="
    ++ without_dashes symbol
    ++ bytes "&interval="
    ++ interval
    ++ bytes "&limit="
    ++ format_int (pos limit)

-- an error with a text before its own
abbrev pub wrap_error : {A : Type 0} → Str → Outcome A → Outcome A
wrap_error prefix (failed e) = failed (prefix ++ e)
wrap_error prefix (done a) = done a

-- the end of a round of fetchKlines' loop, and of fetchRecentCloses'
abbrev pub add_kline : {F : Type 0} → Option (F × Time) → List F × List Time → List F × List Time
add_kline none fetched = fetched
add_kline (some (c, t)) (closes, dates) = (c ∷ closes, t ∷ dates)

abbrev pub add_close : {F : Type 0} → Option F → List F → List F
add_close none closes = closes
add_close (some c) closes = c ∷ closes

module _ {F : Type 0} (mk : Market F) where
  -- Get and ReadAll
  unfoldable pub read_all : Str → Outcome Answer
  read_all url = do a ← mk.get url; elim (a.read_error) [ none ↦ done a | some e ↦ failed e ]

  unfoldable pub api_error : Answer → Str
  api_error a =
      let unnamed = bytes "binance returned " ++ format_int (pos a.status) in
      elim (mk.message_of a.body) [
        | none ↦ unnamed
        | some msg ↦ if str_eq msg [] then unnamed else msg
      ]

  abbrev pub parse_bars : Str → Str → Outcome (List (List mk.Raw))
  parse_bars prefix body = wrap_error prefix (mk.bars_of body)

  -- the start of fetchKlines and of fetchFullKlines
  unfoldable pub fetch_raw : Str → Outcome (List (List mk.Raw))
  fetch_raw url = do
    a ← read_all url
    if a.status == 200 then parse_bars (bytes "parse response: ") a.body else failed (api_error a)

  -- the start of fetchRecentCloses and of fetchRecentBars
  unfoldable pub fetch_recent_raw : Str → Outcome (List (List mk.Raw))
  fetch_recent_raw url = do
    a ← read_all url
    (if a.status == 200
        then parse_bars (bytes "parse: ") a.body
        else failed (bytes "binance " ++ format_int (pos a.status)))

  -- The loop's body in fetchKlines: nothing of a bar that `continue` skips.
  unfoldable pub kline_of : List mk.Raw → Option (F × Time)
  kline_of (opened ∷ _ ∷ _ ∷ _ ∷ closed ∷ _) = elim (mk.int_of opened) [
    | none ↦ none
    | some ms ↦ elim (mk.string_of closed) [
      | none ↦ none
      | some text ↦ let (c, ok) = mk.parse_float text in if ok then some (c, of_milli ms) else none
    ]
  ]
  kline_of _ = none

  -- the loop of fetchKlines, with closes and dates
  unfoldable pub klines_of : List (List mk.Raw) → List F × List Time
  klines_of [] = ([], [])
  klines_of (bar ∷ raw) = add_kline (kline_of bar) (klines_of raw)

  unfoldable pub fetch_klines : Str → Str → Time → Time → Outcome (List F × List Time)
  fetch_klines symbol interval from upto = do
    raw ← fetch_raw (klines_url symbol interval from upto)
    done (klines_of raw)

  -- the loop of fetchRecentCloses
  unfoldable pub recent_close_of : List mk.Raw → Option F
  recent_close_of (_ ∷ _ ∷ _ ∷ _ ∷ closed ∷ _) = elim (mk.string_of closed) [
    | none ↦ none
    | some text ↦ some (mk.parse_float text).0
  ]
  recent_close_of _ = none

  unfoldable pub recent_closes_of : List (List mk.Raw) → List F
  recent_closes_of [] = []
  recent_closes_of (bar ∷ raw) = add_close (recent_close_of bar) (recent_closes_of raw)

  unfoldable pub fetch_recent_closes : Str → Str → ℕ → Outcome (List F)
  fetch_recent_closes symbol interval limit = do
    raw ← fetch_recent_raw (recent_url symbol interval limit)
    done (recent_closes_of raw)
