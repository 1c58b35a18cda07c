-- ===== src/Dashboard/Live.antt =====
-- cmd/dashboard/livestrategy.go: a paper-trading session. A session's fields are one record, with the
-- context's cancel function left out; each operation is what the code does under the session's mutex.
pub mod Trades
pub mod Curve
use crypto_divergence_engine.Prelude.{
  ℕ, suc, ◌+◌, ◌-◌, Bool, true, false, ◌&&◌, List, [], ◌∷◌, ◌++◌, if◌then◌else◌, length, drop, ltb,
}
use crypto_divergence_engine.Prelude.Int.{ℤ}
use crypto_divergence_engine.Go.Text.{Str, bytes, str_eq}
use crypto_divergence_engine.Go.Time.{Time, unix_milli}
use crypto_divergence_engine.Go.Float.{Float, gt}

pub record EquityPoint (F : Type 0) : Type 0 where
  pub t : ℤ
  pub v : F

pub record TradeRecord (F : Type 0) : Type 0 where
  pub t : ℤ
  pub kind : Str
  pub price : F
  pub pnl : F

pub record LiveSession (F : Type 0) : Type 0 where
  pub id : Str
  pub symbol : Str
  pub strategy : Str
  pub interval : Str
  pub code : Str
  pub position : Str
  pub entry_price : F
  pub entry_time : Time
  pub cash : F
  pub shares : F
  pub notional : F
  pub current_price : F
  pub pnl : F
  pub trades : ℕ
  pub signal : Str
  pub start_time : Time
  pub btc_start_price : F
  pub btc_pnl : F
  pub trade_history : List (TradeRecord F)
  pub equity_curve : List (EquityPoint F)

pub record LiveSnapshot (F : Type 0) : Type 0 where
  pub id : Str
  pub symbol : Str
  pub strategy : Str
  pub interval : Str
  pub position : Str
  pub entry_price : F
  pub current_price : F
  pub pnl : F
  pub trades : ℕ
  pub signal : Str
  pub start_time : Time
  pub total_value : F
  pub btc_pnl : F
  pub trade_history : List (TradeRecord F)
  pub equity_curve : List (EquityPoint F)

abbrev pub max_points : ℕ
max_points = 2000

module _ {F : Type 0} ⦃fl : Float F⦄ where
  unfoldable pub total_value : LiveSession F → F
  total_value s =
      if str_eq s.position (bytes "long") then fl.mul s.shares s.current_price else s.cash

  unfoldable pub snapshot : LiveSession F → LiveSnapshot F
  snapshot s = record {
    id = s.id;
    symbol = s.symbol;
    strategy = s.strategy;
    interval = s.interval;
    position = s.position;
    entry_price = s.entry_price;
    current_price = s.current_price;
    pnl = s.pnl;
    trades = s.trades;
    signal = s.signal;
    start_time = s.start_time;
    total_value = total_value s;
    btc_pnl = s.btc_pnl;
    trade_history = s.trade_history;
    equity_curve = s.equity_curve;
  }

  -- the session that start creates, at the clock's time
  unfoldable pub new_session : Str → Str → Str → Str → Str → Time → LiveSession F
  new_session id symbol strategy interval code now = record {
    id = id;
    symbol = symbol;
    strategy = strategy;
    interval = interval;
    code = code;
    position = bytes "flat";
    entry_price = fl.of_nat 0;
    entry_time = 0;
    cash = fl.of_nat 10_000;
    shares = fl.of_nat 0;
    notional = fl.of_nat 10_000;
    current_price = fl.of_nat 0;
    pnl = fl.of_nat 0;
    trades = 0;
    signal = [];
    start_time = now;
    btc_start_price = fl.of_nat 0;
    btc_pnl = fl.of_nat 0;
    trade_history = [];
    equity_curve = [];
  }

  -- the P&L in percent of the notional
  unfoldable pub current_pnl : LiveSession F → F
  current_pnl s = fl.mul (fl.div (fl.sub (total_value s) s.notional) s.notional) (fl.of_nat 100)

  -- The case that buys. The clock is read at `now`, and for the entry's time at `entered`.
  unfoldable pub buy : F → Time → Time → LiveSession F → LiveSession F
  buy price now entered s =
      let s' : LiveSession F = record s {
        position = bytes "long";
        entry_price = price;
        entry_time = entered;
        shares = fl.div s.cash price;
        cash = fl.of_nat 0;
        trades = suc s.trades;
      } in
      let trade : TradeRecord F = record {
        t = unix_milli now;
        kind = bytes "buy";
        price = price;
        pnl = current_pnl s';
      } in
      record s' { trade_history = s'.trade_history ++ trade ∷ [] }

  -- the case that sells
  unfoldable pub sell : F → Time → LiveSession F → LiveSession F
  sell price now s =
      let s' : LiveSession F = record s {
        cash = fl.mul s.shares price;
        shares = fl.of_nat 0;
        position = bytes "flat";
        trades = suc s.trades;
      } in
      let trade : TradeRecord F = record {
        t = unix_milli now;
        kind = bytes "sell";
        price = price;
        pnl = current_pnl s';
      } in
      record s' { trade_history = s'.trade_history ++ trade ∷ [] }

  -- the switch of applySignal
  unfoldable pub trade : Str → F → Time → Time → LiveSession F → LiveSession F
  trade signal price now entered s =
      if str_eq signal (bytes "buy") && str_eq s.position (bytes "flat")
      then buy price now entered s
      else if str_eq signal (bytes "sell") && str_eq s.position (bytes "long")
      then sell price now s
      else s

  -- the end of applySignal: the P&L and the curve, which keeps its last points
  unfoldable pub record_point : Time → LiveSession F → LiveSession F
  record_point now s =
      let pnl' = current_pnl s in
      let point : EquityPoint F = record { t = unix_milli now; v = pnl' } in
      let curve = s.equity_curve ++ point ∷ [] in
      record s {
        pnl = pnl';
        equity_curve =
            if ltb max_points (length curve) then drop (length curve - max_points) curve else curve;
      }

  unfoldable pub apply_signal : Str → F → Time → Time → LiveSession F → LiveSession F
  apply_signal signal price now entered s =
      record_point now
        (trade signal price now entered (record s { current_price = price; signal = signal }))

  -- the benchmark part of tick, on the closes that were fetched for BTC
  unfoldable pub track_btc : List F → LiveSession F → LiveSession F
  track_btc [] s = s
  track_btc (price ∷ rest) s =
      let start = if fl.eq s.btc_start_price (fl.of_nat 0) then price else s.btc_start_price in
      record s {
        btc_start_price = start;
        btc_pnl =
            if gt start (fl.of_nat 0)
            then fl.mul (fl.div (fl.sub price start) start) (fl.of_nat 100)
            else s.btc_pnl;
      }
