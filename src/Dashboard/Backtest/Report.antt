-- ===== src/Dashboard/Backtest/Report.antt =====
-- cmd/dashboard/backtest.go: the statistics of computeResult, and the results of the run functions.
-- A sum of a bar and the forward days is Go's: a sum that does not fit an int is negative.
pub mod Rows
pub mod Whole
pub mod Equity
pub mod Runs
use crypto_divergence_engine.Prelude.{
  ℕ, zero, suc, ◌+◌, ◌-◌, ◌%◌, Bool, true, false, ◌&&◌, Option, none, some, List, [], ◌∷◌, ◌++◌,
  if◌then◌else◌, ltb, ◌==◌, length, replicate,
}
use crypto_divergence_engine.Prelude.Int.{pos, ltb_ℤ}
use crypto_divergence_engine.Go.Text.{Str, bytes, str_eq, format_int}
use crypto_divergence_engine.Go.Time.{Time}
use crypto_divergence_engine.Go.Float.{Float, gt}
use crypto_divergence_engine.Go.Checked.{◌>>=◌, ◌>>◌, at, at_int, add_int}
use crypto_divergence_engine.Dashboard.Indicators.{bt_pearson}
use crypto_divergence_engine.Dashboard.Backtest.{
  TradeEvent, Strategy, bars_needed, warmup, run_strategy, Book,
}

pub record SignalRow (F : Type 0) : Type 0 where
  pub date : Str
  pub price : F
  pub kind : Str
  pub forward_return : F
  pub has_forward : Bool

pub record BacktestResult (F : Type 0) : Type 0 where
  pub signals : List (SignalRow F)
  pub strat_return : F
  pub win_rate : F
  pub correlation : F
  pub num_signals : ℕ
  pub bars_used : ℕ
  pub error : Str

unfoldable pub not_enough_data : ℕ → ℕ → Str
not_enough_data need got =
    bytes "not enough data: need "
    ++ format_int (pos need)
    ++ bytes " bars, got "
    ++ format_int (pos got)

module _ {F : Type 0} where
  abbrev pub is_buy : TradeEvent F → Bool
  is_buy e = str_eq e.kind (bytes "buy")

  abbrev pub is_sell : TradeEvent F → Bool
  is_sell e = str_eq e.kind (bytes "sell")

  -- xs[i] = x
  unfoldable pub set_at : List F → ℕ → F → Option (List F)
  set_at [] i x = none
  set_at (y ∷ ys) zero x = some (x ∷ ys)
  set_at (y ∷ ys) (suc i) x = do rest ← set_at ys i x; some (y ∷ rest)

module _ {F : Type 0} ⦃fl : Float F⦄ where
  -- (closes[i+forwardDays] - closes[i]) / closes[i] * 100
  unfoldable pub forward_change : List F → ℕ → ℕ → Option F
  forward_change closes forward i = do
    later ← at_int closes (add_int i forward)
    now ← at closes i
    some (fl.mul (fl.div (fl.sub later now) now) (fl.of_nat 100))

  unfoldable pub signal_row : List F → ℕ → ℕ → TradeEvent F → Option (SignalRow F)
  signal_row closes n forward e =
      let row : SignalRow F = record {
        date = e.date;
        price = e.price;
        kind = e.kind;
        forward_return = fl.of_nat 0;
        has_forward = false;
      } in
      if ltb_ℤ (add_int e.bar_idx forward) (pos n)
      then (forward_change closes forward e.bar_idx >>= λ change.
          some (record row { forward_return = change; has_forward = true }))
      else some row

  unfoldable pub signal_rows : List F → ℕ → ℕ → List (TradeEvent F) → Option (List (SignalRow F))
  signal_rows closes n forward [] = some []
  signal_rows closes n forward (e ∷ es) = do
    row ← signal_row closes n forward e
    rest ← signal_rows closes n forward es
    some (row ∷ rest)

  -- r * (1 + (price-paid)/paid)
  abbrev pub grown : F → F → F → F
  grown r paid price = fl.mul r (fl.add (fl.of_nat 1) (fl.div (fl.sub price paid) paid))

  -- the loop over the pairs of events
  unfoldable pub pairs_return : List (TradeEvent F) → F → F
  pairs_return [] r = r
  pairs_return (a ∷ []) r = r
  pairs_return (a ∷ b ∷ es) r =
      pairs_return es (if is_buy a && is_sell b then grown r a.price b.price else r)

  unfoldable pub last_event : TradeEvent F → List (TradeEvent F) → TradeEvent F
  last_event e [] = e
  last_event e (d ∷ es) = last_event d es

  -- the position that is still open, at the last close
  unfoldable pub open_return : List F → ℕ → List (TradeEvent F) → F → Option F
  open_return closes n [] r = some r
  open_return closes n (e ∷ es) r =
      let last = last_event e es in
      if length (e ∷ es) % 2 == 1 && is_buy last
      then (at closes (n - 1) >>= λ price. some (grown r last.price price))
      else some r

  -- wins and buyN
  unfoldable pub tally : List (SignalRow F) → ℕ → ℕ → ℕ × ℕ
  tally [] wins buys = (wins, buys)
  tally (s ∷ rest) wins buys =
      let counted = str_eq s.kind (bytes "buy") && s.has_forward in
      tally rest (if counted && gt s.forward_return (fl.of_nat 0) then suc wins else wins)
        (if counted then suc buys else buys)

  abbrev pub rate : ℕ × ℕ → F
  rate (wins, buys) =
      if ltb 0 buys
      then fl.mul (fl.div (fl.of_nat wins) (fl.of_nat buys)) (fl.of_nat 100)
      else fl.of_nat 0

  unfoldable pub mark_buys : List (TradeEvent F) → List F → Option (List F)
  mark_buys [] indicator = some indicator
  mark_buys (e ∷ es) indicator = do
    indicator' ← if is_buy e then set_at indicator e.bar_idx (fl.of_nat 1) else some indicator
    mark_buys es indicator'

  -- The loop that collects xs and ys; a loop that does not end within the fuel gives `none`.
  unfoldable pub samples : List F → List F → ℕ → ℕ → ℕ → ℕ → Option (List (F × F))
  samples closes indicator n forward zero i = none
  samples closes indicator n forward (suc fuel) i =
      if ltb_ℤ (add_int i forward) (pos n)
      then (forward_change closes forward i >>= λ change. at indicator i >>= λ x.
          samples closes indicator n forward fuel (i + 1) >>= λ rest. some ((x, change) ∷ rest))
      else some []

  unfoldable pub compute_result :
      List (TradeEvent F) → List F → ℕ → ℕ → ℕ → Option (BacktestResult F)
  compute_result events closes n warm forward = do
    signals ← signal_rows closes n forward events
    strat_return ← open_return closes n events (pairs_return events (fl.of_nat 1))
    indicator ← mark_buys events (replicate n (fl.of_nat 0))
    pairs ← samples closes indicator n forward (suc (n - warm)) warm
    some (record {
      signals = signals;
      strat_return = fl.mul (fl.sub strat_return (fl.of_nat 1)) (fl.of_nat 100);
      win_rate = rate (tally signals 0 0);
      correlation = bt_pearson pairs;
      num_signals = length signals;
      bars_used = n;
      error = [];
    })

  -- BacktestResult{Error: message}
  abbrev pub failure : Str → BacktestResult F
  failure message = record {
    signals = [];
    strat_return = fl.of_nat 0;
    win_rate = fl.of_nat 0;
    correlation = fl.of_nat 0;
    num_signals = 0;
    bars_used = 0;
    error = message;
  }

  unfoldable pub run_enough :
      (Time → Str) → List F → List Time → ℕ → Strategy F → Option (BacktestResult F)
  run_enough format_date closes dates forward s = do
    b ← run_strategy format_date closes dates s
    compute_result b.events closes (length closes) (warmup s) forward

  -- runCrossover, runRSI, runBollinger and runBreakout
  unfoldable pub run_backtest :
      (Time → Str) → List F → List Time → ℕ → Strategy F → Option (BacktestResult F)
  run_backtest format_date closes dates forward s =
      if ltb (length closes) (bars_needed s)
      then some (failure (not_enough_data (bars_needed s) (length closes)))
      else run_enough format_date closes dates forward s
