-- ===== src/Tests/Requests.antt =====
-- Requests, scripts and the ticks of a session with an exchange of a few bars.
use crypto_divergence_engine.Prelude.{
  ℕ, zero, suc, ◌+◌, ◌^◌, ◌<◌, ◌≤◌, ◌≡◌, refl, sym, ap, ◌∙◌, if◌then◌else◌, true, false, none, some,
  List, [], ◌∷◌, length, arith,
}
use mathlib.Core.Path.{subst}
use crypto_divergence_engine.Prelude.Int.{ℤ, pos, pos_part}
use crypto_divergence_engine.Go.Text.{Str, bytes, str_eq}
use crypto_divergence_engine.Go.Checked.{Returns}
use crypto_divergence_engine.Dashboard.Hub.{new_hub}
use crypto_divergence_engine.Dashboard.Market.{
  Market, Outcome, failed, done, OhlcvBar, fetch_raw, read_all,
}
use crypto_divergence_engine.Dashboard.Bars.{fetch_full_klines, full_bars_of, full_bar_of}
use crypto_divergence_engine.Dashboard.Backtest.{TradeEvent}
use crypto_divergence_engine.Dashboard.Backtest.Handler.{
  BacktestRequest, handle_backtest, param, forward_or_default,
}
use crypto_divergence_engine.Go.Map.{lookup}
use crypto_divergence_engine.Dashboard.Backtest.Handler.Replies.{
  IsReply, HasPeriods, RanFor, handle_backtest-Returns,
}
use crypto_divergence_engine.Dashboard.Custom.{Python, CustomRequest, handle_custom_backtest}
use crypto_divergence_engine.Dashboard.Custom.Harness.{
  Globals, Call, raised, gave, finished, run_harness, harness_loop, take_signal, append_trade,
  is_signal, is_position,
}
use crypto_divergence_engine.Dashboard.Custom.Scripts.{
  RanScript, AreInBars, handle_custom_backtest-Returns,
}
use crypto_divergence_engine.Dashboard.Live.{LiveSession, new_session}
use crypto_divergence_engine.Dashboard.Live.Trades.{IsValid}
use crypto_divergence_engine.Dashboard.Ticks.{run_session}
use crypto_divergence_engine.Dashboard.Ticks.Steady.{HasFollowed, run_session-Returns}
use crypto_divergence_engine.Tests.Data.{whole_numbers, start}
use crypto_divergence_engine.Tests.Backtest.{event, no_format}

-- an exchange that answers any request with four bars, whose cells are numbers
abbrev bar_of : ℕ → List ℕ
bar_of close = 1_700_000_000_000 ∷ 1 ∷ 2 ∷ 3 ∷ close ∷ 4 ∷ []

abbrev bars : List (List ℕ)
bars = bar_of 10 ∷ bar_of 11 ∷ bar_of 13 ∷ bar_of 12 ∷ []

abbrev market : Market ℤ
market = record {
  Raw = ℕ;
  get = λ url. done (record { status = 200; body = []; read_error = none });
  bars_of = λ body. done bars;
  message_of = λ body. none;
  int_of = λ n. some (pos n);
  string_of = λ n. some (n ∷ []);
  parse_float = λ text. elim text [ [] ↦ (pos 0, false) | n ∷ rest ↦ (pos n, true) ];
  format_day = no_format;
  format_minute = no_format;
}

abbrev length_of_done : {A : Type 0} → Outcome (List A) → ℕ
length_of_done (failed e) = 0
length_of_done (done xs) = length xs

few_bars : (body : Str) (raw : List (List ℕ)) → market.bars_of body ≡ done raw → length raw ≤ 1000
few_bars body raw e = omega (arith, ap length_of_done e)

abbrev request : BacktestRequest ℤ
request = record {
  symbol = bytes "BTCUSDT";
  interval = [];
  from_date = bytes "2026-01-02";
  to_date = [];
  forward_days = pos 0;
  strategy = bytes "breakout";
  params = some ((bytes "lookback", pos 2) ∷ (bytes "holdBars", pos 1) ∷ []);
}

request_periods : HasPeriods pos_part request
unfolding param lookup str_eq
request_periods = (omega arith, omega arith, omega arith)

request_fits : 1000 + forward_or_default request.forward_days < 2 ^ 63
unfolding forward_or_default
request_fits = omega arith

-- what holds of the request holds of the one that is decoded
of_some : {A : Type 0} → (P : A → Type 0) (a b : A) → P a → some a ≡ some b → P b
of_some P a b p e = subst P (ap (λ o. elim o [ none ↦ a | some x ↦ x ]) e) p

handle_backtest-Returns_example :
    Returns
      (IsReply (bytes "POST") (RanFor pos_part market (λ text. some start) start (some request)))
      (handle_backtest pos_part market (λ text. some start) start (bytes "POST") (some request))
handle_backtest-Returns_example =
    handle_backtest-Returns pos_part market (λ text. some start) start 1000 few_bars (bytes "POST")
      (some request) (λ req. of_some (HasPeriods pos_part) request req request_periods)
      λ req.
        of_some (λ r. 1000 + forward_or_default r.forward_days < 2 ^ 63) request req request_fits

abbrev decoded_events : List (TradeEvent ℤ)
decoded_events = event 1 11 (bytes "buy") ∷ event 3 12 (bytes "sell") ∷ []

-- an interpreter whose scripts all write the same two trades
abbrev python : Python ℤ
python = record {
  installed = true;
  script_of = λ code. code;
  encode = λ columns. [];
  run = λ seconds script input. record {
    out = bytes "traded";
    failed_run = false;
    timed_out = false;
    stderr = [];
  };
  decode_events = λ out. if str_eq out (bytes "traded") then some (decoded_events, []) else none;
  decode_position = λ out. some (pos 1, []);
}

abbrev custom_request : CustomRequest
custom_request = record {
  symbol = bytes "BTCUSDT";
  interval = bytes "1d";
  from_date = bytes "2026-01-02";
  to_date = [];
  forward_days = pos 7;
  code = bytes "def on_bar(*a): pass";
}

custom_fits : 1000 + forward_or_default custom_request.forward_days < 2 ^ 63
unfolding forward_or_default
custom_fits = omega arith

four_bars :
    (symbol interval : Str) (from upto : ℕ)
    → length_of_done (fetch_full_klines market symbol interval from upto) ≡ 4
unfolding fetch_full_klines fetch_raw read_all full_bars_of full_bar_of
four_bars symbol interval from upto = refl

traded_in_bars : (n : ℕ) → n ≡ 4 → AreInBars n (python.decode_events (bytes "traded"))
unfolding str_eq
traded_in_bars n e = (omega (arith, e), (omega (arith, e), tt))

handle_custom_backtest-Returns_example :
    Returns
      (IsReply
        (bytes "POST")
        (RanScript python market (λ text. some start) start (some custom_request)))
      (handle_custom_backtest python market
        (λ text. some start)
        start
        (bytes "POST")
        (some custom_request))
handle_custom_backtest-Returns_example =
    handle_custom_backtest-Returns python market (λ text. some start) start 1000 few_bars
      (bytes "POST") (some custom_request)
      (λ req from bars same parsed fetched.
        traded_in_bars (length bars)
          (ap length_of_done (sym fetched) ∙ four_bars req.symbol req.interval from _))
      λ req.
        of_some (λ r. 1000 + forward_or_default r.forward_days < 2 ^ 63) custom_request req
          custom_fits

abbrev ohlcv : ℕ → OhlcvBar ℤ
ohlcv close = record {
  date = [];
  open_price = pos close;
  high = pos close;
  low = pos close;
  close = pos close;
  volume = pos 1;
}

-- buys at the first call, sells at the second and the third, and raises at the fourth; it counts
-- the calls and clears the list of the volumes
abbrev act : Globals ℤ ℕ → ℕ → Call ℤ ℕ
act g zero = gave (some (bytes "buy")) (record g { rest = 1; volumes = [] })
act g (suc zero) = gave (some (bytes "sell")) (record g { rest = 2; volumes = [] })
act g (suc (suc zero)) = gave (some (bytes "sell")) (record g { rest = 3; volumes = [] })
act g (suc (suc (suc n))) = raised (bytes "too late") g

abbrev script_bars : List (OhlcvBar ℤ)
script_bars = ohlcv 10 ∷ ohlcv 12 ∷ ohlcv 9 ∷ []

script_run :
    run_harness (λ g. act g g.rest) script_bars 0
    ≡ finished (event 0 10 (bytes "buy") ∷ event 1 12 (bytes "sell") ∷ []) (pos 0)
unfolding run_harness harness_loop take_signal append_trade is_signal is_position str_eq
script_run = refl

abbrev session : LiveSession ℤ
session = new_session (bytes "s1") (bytes "BTC-USDT") (bytes "ema_crossover") (bytes "1m") [] start

session-IsValid : IsValid false session
unfolding new_session
session-IsValid = (refl, refl, refl)

session_not_custom : str_eq session.strategy (bytes "custom") ≡ false
unfolding new_session str_eq
session_not_custom = refl

run_session-Returns_example :
    Returns
      (λ next. HasFollowed false session next.0)
      (run_session
        (λ snap. [])
        (λ k. market)
        (λ k. python)
        (λ k. start)
        (λ k. start)
        0
        3
        (session, new_hub))
run_session-Returns_example =
    run_session-Returns (λ snap. []) (λ k. market) (λ k. python) (λ k. start) (λ k. start) 0 3 false
      session new_hub session-IsValid
      λ k custom. absurd (ground (arith, custom, session_not_custom))
