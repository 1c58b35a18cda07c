-- ===== src/Ingester.antt =====
-- internal/ingester and cmd/ingester-binance: trades of the exchange become ticks, which go through a
-- bounded channel to the publisher. The websocket, encoding/json, strconv.ParseFloat and Unicode's
-- tables are parameters: `unmarshal` fills the envelope that the loop keeps between messages and says whether the
-- text was well formed, and `parse_float` is the number that ParseFloat returns.
pub mod Symbols
pub mod Pipeline
pub mod Reconnect
use crypto_divergence_engine.Prelude.{
  ℕ, zero, suc, ◌+◌, ◌-◌, ◌*◌, Bool, true, false, not, List, [], ◌∷◌, ◌++◌, map, if◌then◌else◌,
  length, take, select, min, ◌==◌, leb, ltb,
}
use crypto_divergence_engine.Prelude.Int.{ℤ, pos}
use crypto_divergence_engine.Go.Text.{
  Str, bytes, Unicode, to_upper, to_lower, has_suffix, format_int,
}
use crypto_divergence_engine.Go.Time.{Time, second, of_unix_milli}
use crypto_divergence_engine.Go.Channel.{offer}
use crypto_divergence_engine.Tick.{Tick}

pub record BinanceTrade : Type 0 where
  pub symbol : Str
  pub trade_id : ℤ
  pub price : Str
  pub quantity : Str
  pub trade_time : ℕ
  pub is_maker : Bool

abbrev pub quotes : List Str
quotes = bytes "USDT" ∷ bytes "BUSD" ∷ bytes "USDC" ∷ bytes "BTC" ∷ bytes "ETH" ∷ bytes "BNB" ∷ []

-- the loop of normalizeSymbol over the quotes
unfoldable pub split_quote : Str → List Str → Str
split_quote s [] = s
split_quote s (q ∷ qs) =
    if has_suffix s q then take (length s - length q) s ++ (bytes "-" ++ q) else split_quote s qs

unfoldable pub normalize_symbol : ⦃uni : Unicode⦄ → Str → Str
normalize_symbol s = split_quote (to_upper s) quotes

-- strings.ReplaceAll(s, "-", "")
unfoldable pub remove_dashes : Str → Str
remove_dashes = select (λ c. not (c == b'-'))

-- the name of a symbol's stream
unfoldable pub stream_name : ⦃uni : Unicode⦄ → Str → Str
stream_name s = to_lower (remove_dashes s) ++ bytes "@trade"

-- the streams of Subscribe's URL, joined by "/"
unfoldable pub join_streams : ⦃uni : Unicode⦄ → List Str → Str
join_streams [] = []
join_streams (s ∷ []) = stream_name s
join_streams (s ∷ r ∷ rest) = stream_name s ++ (bytes "/" ++ join_streams (r ∷ rest))

unfoldable pub stream_url : ⦃uni : Unicode⦄ → List Str → Str
stream_url symbols = bytes "wss://stream.binance.com:9443/stream?streams=" ++ join_streams symbols

module _ {F : Type 0} ⦃uni : Unicode⦄ (parse_float : Str → F) where
  unfoldable pub normalize_binance_trade : BinanceTrade → Time → Tick F
  normalize_binance_trade m now = record {
    symbol = normalize_symbol m.symbol;
    exchange = bytes "binance";
    price = parse_float m.price;
    volume = parse_float m.quantity;
    side = if m.is_maker then bytes "sell" else bytes "buy";
    trade_id = format_int m.trade_id;
    timestamp = of_unix_milli m.trade_time;
    received_at = now;
  }

abbrev pub channel_size : ℕ
channel_size = 1000

-- the reader's envelope and the channel
pub record Reader (F : Type 0) : Type 0 where
  pub envelope : BinanceTrade
  pub channel : List (Tick F)

module _ {F : Type 0} ⦃uni : Unicode⦄ (parse_float : Str → F)
    (unmarshal : Str → BinanceTrade → BinanceTrade × Bool) where
  -- one message of Subscribe's loop
  unfoldable pub receive : Str → Time → Reader F → Reader F
  receive msg now r =
      let (envelope', ok) = unmarshal msg r.envelope in
      record {
        envelope = envelope';
        channel =
            if ok
            then offer channel_size (normalize_binance_trade parse_float envelope' now) r.channel
            else r.channel;
      }

abbrev pub max_backoff : ℕ
max_backoff = 30 * second

-- backoff = min(backoff*2, maxBackoff)
unfoldable pub next_backoff : ℕ → ℕ
next_backoff b = min (b * 2) max_backoff

-- the backoff before the (n+1)-th reconnection
unfoldable pub backoff_after : ℕ → ℕ
unfolding next_backoff
backoff_after zero = second
backoff_after (suc n) = next_backoff (backoff_after n)
