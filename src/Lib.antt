-- ===== src/Lib.antt =====
-- The crypto divergence engine: trades of an exchange become ticks on a stream, detectors read the
-- ticks and raise alerts, an aggregator passes each alert on once, and a dashboard shows both and runs
-- paper-trading sessions.
--
-- The program's parts and the modules that model them, with paths from the repository's root:
--   Tick, Alert          internal/tick/tick.go and internal/alert/alert.go: the two wire formats.
--   State.RingBuffer     internal/state/ringbuffer.go: NewRingBuffer, Push, SumSince, Len and Slice, with
--                        the loops as recursion on the number of rounds to go. Valid has the invariant,
--                        Reads and Refine the list that a buffer stands for, Queries what SumSince and
--                        Slice compute from it, History the form that the detectors use.
--   State.ShardedMap     internal/state/shardedmap.go: Use, the choice of a shard and fnv32.
--   Detectors.VolumeSpike, Detectors.OrderFlow
--                        internal/detectors/volumespike.go and orderflow.go: `step` is the callback of
--                        OnTick on one symbol's state, `on_tick` is OnTick. Spec says without buffers what
--                        a tick raises after a history; Refine relates the detector to it.
--   Detectors.Correlation
--                        internal/detectors/correlation.go: `step` is the body of the loop of OnTick for
--                        one pair, from `update_price` to `sample` and `evaluate`; `Pearson` has
--                        Welford's loop. Throttle is about its guards, Pairs about the pairs, Aligned
--                        about the two buffers of a pair.
--   Detectors.PerSymbol  what the detectors share: a machine per symbol, run through the sharded map.
--   Detectors.Registry   internal/detectors/registry.go and detector.go: OnTick over a list of detectors.
--   Worker               cmd/detector/main.go: the read loop and process, with the publications and
--                        acknowledgements as a list of effects in order.
--   Aggregator           cmd/aggregator/main.go: isDup, one round of cleanupLoop, and the loop over the
--                        messages.
--   Ingester             internal/ingester/binance.go and cmd/ingester-binance/main.go: normalizeSymbol,
--                        normalizeBinanceTrade, one message of Subscribe, the bounded channel between
--                        reader and publisher, and the waits between reconnections.
--   Dashboard.Hub        cmd/dashboard/main.go: subscribe, unsubscribe, broadcast, and what serveSSE takes.
--   Dashboard.Live       cmd/dashboard/livestrategy.go: a session, applySignal, snapshot, and the benchmark
--                        of tick.
--   Dashboard.Market, Dashboard.Bars
--                        cmd/dashboard/backtest.go and livestrategy.go: fetchKlines, fetchFullKlines,
--                        fetchRecentCloses, fetchRecentBars and handleLiveBTC. The beginning that two of the
--                        functions share is one definition (fetch_raw, fetch_recent_raw).
--   Dashboard.Indicators cmd/dashboard/backtest.go: barSMA, computeEMA, computeRSI, computeBollinger and
--                        btPearson. A slice that a loop fills is built from the left, and the slices of
--                        computeBollinger are one slice of triples.
--   Dashboard.Backtest   the same file: the four strategies. runCrossover, runRSI, runBollinger and
--                        runBreakout have one loop, `bars_loop`, whose body is the strategy's (`decision`);
--                        Report has computeResult and the run functions with their errors, Handler
--                        handleBacktest. Ledger says what the events of a loop are, Moves and Safety are
--                        about the loops, Causal, Local and Lookahead about runs on more closes,
--                        Report.Equity about the return.
--   Dashboard.Signals    cmd/dashboard/livestrategy.go: computeLiveSignal and the four liveSignal functions.
--   Dashboard.Custom     handleCustomBacktest and computeCustomLiveSignal; Harness has the loop of the
--                        Python script in pythonHarness, with the user's on_bar as a parameter: a
--                        function from the script's globals, lists and all, to what it makes of
--                        them. Harness.Sound is about an on_bar that leaves the loop's own alone.
--   Dashboard.Ticks      cmd/dashboard/livestrategy.go: tick, and the ticks of runSession.
--   Dashboard.Sessions   the same file: the manager of the sessions (start, stop, listSnapshots) and the
--                        handlers that start and stop sessions.
--   Dashboard.Reader     cmd/dashboard/main.go: readStreams.
--   Bus                  internal/bus/redis.go: the streams' names, Publish, PublishAlert and
--                        PublishAlertClean. The worker and the aggregator have a publication as one effect.
--   Subscriber           cmd/subscriber-dev/main.go: the loop of main, printTick and printAlert.
--   Loadgen              bench/loadgen/main.go: the loop of main, queryGroup and printSummary.
--   Go                   what the code uses of Go's language and library: texts as lists of bytes, maps,
--                        instants and durations, buffered channels, and float64 as an interface.
--   Prelude              names of the libraries passed on, lists and integers over the native numbers.
--   Tests                the same theorems at concrete inputs.
--
-- How state is modelled. A method that changes its receiver returns the new record. Mutexes make the
-- calls on shared state a sequence, so concurrency is an arbitrary sequence of calls: the events of
-- Ingester.Pipeline, Aggregator.Dedup and Dashboard.Hub.Clients come in any order. The states that a
-- sharded map holds are pointers in the code, each held by one entry only, so a callback returns the new
-- state. Readings of the clock are arguments.
--
-- Panics. Where slices are indexed by computed numbers (the indicators, the backtests and the signals), a
-- read is checked, and `none` is the panic; Go.Checked has this monad and the rule that code returns with
-- a property. Elsewhere a read out of range, which panics in Go, gives a default.
--
-- Bounds. Loops recurse on what is left of them; `samples`, the loop of computeResult that adds the
-- forward days, has one unit of fuel more than bars, and running out counts as a panic. The sums of a bar
-- with the forward days and with holdBars wrap around as an int does (add_int). An instant is a natural
-- number of nanoseconds since the zero Time, so instants before the year 1 are left out, and a trade's
-- milliseconds are not negative; Time.Sub saturates as in Go. Counters and indices are natural numbers:
-- an int of 64 bits does not wrap around at the sizes that occur elsewhere. The periods of a backtest are
-- natural numbers far below the greatest int, and so are the bars in a script's output: a request that
-- converts to a negative period is left out. strings.ToUpper and ToLower are written out for ASCII text;
-- for other text, which they read in Unicode's tables, they are a parameter (the record Unicode).
--
-- Numbers. Go's float64 is a parameter with its operations (Go.Float), of which no law is assumed.
--
-- Parameters. Redis, encoding/json, the websocket, the HTTP client, Python, time's Parse and Format and
-- strconv.ParseFloat are not in this repository: what a read returns, how a text parses and what an
-- unmarshal fills in are arguments, or fields of the records Market and Python.
--
-- Not modelled: logging; the setup in each main; contexts and timeouts, other than the timeout of a
-- script.
pub mod Prelude
pub mod Go
pub mod State
pub mod Tick
pub mod Alert
pub mod Detectors
pub mod Worker
pub mod Aggregator
pub mod Ingester
mod Tests
pub mod Dashboard
pub mod Bus
pub mod Subscriber
pub mod Loadgen
