-- ===== src/Tests/Dashboard.antt =====
-- cmd/dashboard: a session and the hub on concrete events.
use crypto_divergence_engine.Prelude.{
  ℕ, ◌+◌, ◌*◌, ◌≡◌, ◌≤◌, ◌<◌, refl, Bool, false, none, some, List, [], ◌∷◌, ◌++◌, if◌then◌else◌,
  map, arith, length, take_last,
}
use crypto_divergence_engine.Prelude.Int.{ℤ, pos, ◌-ℤ◌, ◌*ℤ◌}
use crypto_divergence_engine.Go.Text.{Str, bytes}
use crypto_divergence_engine.Go.Time.{Time, second}
use crypto_divergence_engine.Dashboard.Live.{LiveSession, new_session, snapshot}
use crypto_divergence_engine.Dashboard.Live.Trades
use crypto_divergence_engine.Dashboard.Live.Trades.{Signal, IsValid, kinds, turns, trades_alternate}
use crypto_divergence_engine.Dashboard.Live.Curve.{points, equity_curve-eq-take_last, snapshot-pnl}
use crypto_divergence_engine.Dashboard.Hub.{Hub, subscribe, new_hub}
use crypto_divergence_engine.Dashboard.Hub.Clients
use crypto_divergence_engine.Dashboard.Hub.Clients.{
  joins, leaves, sends, serves, queue_of, alone, run-eq-alone,
}
use crypto_divergence_engine.Dashboard.Hub.Order.{Sound, broadcasts, client_in_order}
use crypto_divergence_engine.Go.Text.{str_eq}
use crypto_divergence_engine.Go.Map.{lookup}
use crypto_divergence_engine.Dashboard.Sessions.{
  SessionManager, StartRequest, new_session_manager, start,
}
use crypto_divergence_engine.Dashboard.Sessions.Ids
use crypto_divergence_engine.Dashboard.Sessions.Ids.{starts, stops, follows, start_is_fresh}
use crypto_divergence_engine.Worker.{Message}
use crypto_divergence_engine.Dashboard.Reader
use crypto_divergence_engine.Bus.{stream_ticks, stream_alerts_clean}
use crypto_divergence_engine.Dashboard.Reader.{Reply, timeout, streams, new_reader, read_streams}
use crypto_divergence_engine.Dashboard.Reader.Positions.{
  received, announced, last_readable, broadcast_all, read_streams-positions,
}
use crypto_divergence_engine.Tests.Data.{whole_numbers, div_ℤ}
use crypto_divergence_engine.Tests.Data.{start as start_of_tests}

abbrev signal : Str → ℕ → ℕ → Signal ℤ
signal text price after = record {
  signal = text;
  price = pos price;
  now = start_of_tests + after * second;
  entered = start_of_tests + after * second;
}

abbrev first_signal : Signal ℤ
first_signal = signal (bytes "sell") 100 0

-- a second buy signal and the first sell signal are not followed
abbrev later_signals : List (Signal ℤ)
later_signals =
    signal (bytes "buy") 100 30
    ∷ signal (bytes "buy") 110 60
    ∷ signal (bytes "hold") 115 90
    ∷ signal (bytes "sell") 120 120
    ∷ []

abbrev session : LiveSession ℤ
session =
    new_session (bytes "s1") (bytes "BTC-USDT") (bytes "breakout") (bytes "1m") [] start_of_tests

trades_alternate_example :
    let s = Trades.run (first_signal ∷ later_signals) session in
    (kinds s ≡ turns false (map (λ e. e.signal) (first_signal ∷ later_signals)))
    × ((long : Bool) × IsValid long s)
trades_alternate_example =
    trades_alternate (bytes "s1") (bytes "BTC-USDT") (bytes "breakout") (bytes "1m") []
      start_of_tests (first_signal ∷ later_signals)

equity_curve-eq-take_last_example :
    let end = Trades.run later_signals session in
    (end.equity_curve ≡ take_last 2000 (points later_signals session))
    × (length end.equity_curve ≤ 2000)
equity_curve-eq-take_last_example =
    equity_curve-eq-take_last (bytes "s1") (bytes "BTC-USDT") (bytes "breakout") (bytes "1m") []
      start_of_tests later_signals

snapshot-pnl_example :
    let snap = snapshot (Trades.run (first_signal ∷ later_signals) session) in
    snap.pnl ≡ div_ℤ (snap.total_value -ℤ pos 10_000) (pos 10_000) *ℤ pos 100
snapshot-pnl_example =
    snapshot-pnl (bytes "s1") (bytes "BTC-USDT") (bytes "breakout") (bytes "1m") [] start_of_tests
      first_signal later_signals

-- a hub with one client, and what happens then: another joins and goes, and the first reads once
abbrev hub : Hub
hub = (subscribe new_hub).0

abbrev events : List Clients.Event
events =
    joins
    ∷ sends (bytes "tick") (bytes "1")
    ∷ serves 0
    ∷ leaves 1
    ∷ sends (bytes "alert") (bytes "2")
    ∷ serves 1
    ∷ []

connected : (0 < hub.next_channel) × (queue_of 0 hub.clients ≡ some [])
unfolding subscribe new_hub
connected = (omega arith, refl)

run-eq-alone_example :
    let (end, out) = Clients.run 0 events hub in (queue_of 0 end.clients, out) ≡ alone 0 events []
run-eq-alone_example = run-eq-alone 0 events hub [] connected.0 connected.1

client_in_order_example :
    let (h, own) = subscribe hub in
    let (end, out) = Clients.run own events h in
    Sound [] (broadcasts events) (queue_of own end.clients, out)
client_in_order_example = client_in_order hub events

-- The n-th session starts n seconds in; two start, one trades, and the first is stopped.
abbrev clock : ℕ → Time
clock n = start_of_tests + n * second

abbrev marshal_id : Str → Str
marshal_id id = bytes "{\"id\":\"" ++ (id ++ bytes "\"}")

abbrev history : List (Ids.Event ℤ)
history =
    starts (bytes "BTC-USDT") (bytes "breakout") (bytes "1m") []
    ∷ starts (bytes "ETH-USDT") (bytes "sma_crossover") (bytes "5m") []
    ∷ follows (bytes "s2") (signal (bytes "buy") 100 30)
    ∷ stops (bytes "s1")
    ∷ []

abbrev manager : SessionManager ℤ
manager = new_session_manager hub

start_is_fresh_example :
    let m = Ids.run clock marshal_id history manager in
    let (m', id) = start clock (bytes "SOL-USDT") (bytes "breakout") (bytes "1m") [] m in
    let s =
      new_session {F = ℤ} id
        (bytes "SOL-USDT")
        (bytes "breakout")
        (bytes "1m")
        []
        (clock m'.session_id_counter) in
    (lookup id m.sessions ≡ none)
    × (lookup (bytes "s2") m'.sessions
        ≡ (if str_eq id (bytes "s2") then some s else lookup (bytes "s2") m.sessions))
start_is_fresh_example =
    start_is_fresh clock marshal_id hub history (bytes "SOL-USDT") (bytes "breakout") (bytes "1m")
      [] (bytes "s2")

abbrev request : StartRequest
request = record {
  symbols = bytes "BTC-USDT" ∷ bytes "ETH-USDT" ∷ [];
  strategy = bytes "breakout";
  interval = [];
  code = [];
}

-- A tick with data, one without, and an alert after a timeout.
abbrev with_data : Message
with_data = record { id = bytes "1-0"; payload = some (bytes "tick 1") }

abbrev without_data : Message
without_data = record { id = bytes "2-0"; payload = none }

abbrev replies : List Reply
replies =
    streams (record { stream = stream_ticks; messages = with_data ∷ without_data ∷ [] } ∷ [])
    ∷ timeout
    ∷ streams (record { stream = stream_alerts_clean; messages = with_data ∷ [] } ∷ [])
    ∷ []

abbrev reader : Reader.Reader
reader = new_reader hub

read_streams-positions_example :
    let end = read_streams replies reader in
    let msgs = received replies in
    (end.hub ≡ broadcast_all (announced msgs) reader.hub)
    × (end.ticks_id ≡ last_readable stream_ticks msgs reader.ticks_id)
    × (end.alerts_id ≡ last_readable stream_alerts_clean msgs reader.alerts_id)
read_streams-positions_example = read_streams-positions replies reader
