-- ===== src/Tests/Ingester.antt =====
-- The ingester on concrete messages.
use crypto_divergence_engine.Prelude.{
  ◌+◌, ◌*◌, ◌≡◌, ◌≤◌, refl, Bool, true, false, List, [], ◌∷◌, ◌++◌, length, map, if◌then◌else◌,
}
use crypto_divergence_engine.Prelude.Int.{ℤ, pos}
use crypto_divergence_engine.Go.Text.{Str, bytes, str_eq, is_ascii}
use crypto_divergence_engine.Go.Time.{second}
use crypto_divergence_engine.Go.Channel.{Thins}
use crypto_divergence_engine.Ingester.{BinanceTrade, channel_size, normalize_symbol, stream_name}
use crypto_divergence_engine.Ingester.Symbols.{stream_name-normalize_symbol}
use crypto_divergence_engine.Ingester.Pipeline
use crypto_divergence_engine.Ingester.Pipeline.{arrives, publishes, normalized, run-keeps_order}
use crypto_divergence_engine.Tests.Data.{whole_numbers, ascii_only, start}

-- Every message but "?" is well formed, and gives the symbol; "{}" gives nothing.
abbrev unmarshal : Str → BinanceTrade → BinanceTrade × Bool
unmarshal text envelope =
    if str_eq text (bytes "?")
    then (envelope, false)
    else if str_eq text (bytes "{}")
    then (envelope, true)
    else (record envelope { symbol = text }, true)

abbrev parse_float : Str → ℤ
parse_float text = pos (length text)

abbrev envelope : BinanceTrade
envelope = record {
  symbol = bytes "BTCUSDT";
  trade_id = pos 7;
  price = bytes "100.5";
  quantity = bytes "2";
  trade_time = 1_764_000_000_000;
  is_maker = false;
}

abbrev eth_envelope : BinanceTrade
eth_envelope = record envelope { symbol = bytes "ETHUSDT" }

abbrev arrivals : List Pipeline.Event
arrivals =
    arrives (bytes "ETHUSDT") start
    ∷ publishes
    ∷ arrives (bytes "?") (start + second)
    ∷ arrives (bytes "SOLUSDT") (start + 2 * second)
    ∷ []

run-keeps_order_example :
    let (r, out) =
      Pipeline.run parse_float unmarshal arrivals (record { envelope = envelope; channel = [] }) in
    Thins (out ++ r.channel) (normalized parse_float unmarshal envelope arrivals)
    × (length r.channel ≤ channel_size)
run-keeps_order_example = run-keeps_order parse_float unmarshal arrivals envelope

-- a trade, and three messages that the decoder makes nothing of
abbrev silent : List Pipeline.Event
silent =
    arrives (bytes "ETHUSDT") start
    ∷ map (arrives (bytes "{}"))
        ((start + second) ∷ (start + 2 * second) ∷ (start + 3 * second) ∷ [])

stream_name-normalize_symbol_example :
    stream_name (normalize_symbol (bytes "BTCUSDT")) ≡ stream_name (bytes "BTCUSDT")
unfolding is_ascii
stream_name-normalize_symbol_example = stream_name-normalize_symbol (bytes "BTCUSDT") refl
