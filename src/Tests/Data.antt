-- ===== src/Tests/Data.antt =====
-- The numbers, the ticks and the alerts of the tests.
use crypto_divergence_engine.Prelude.{
  ℕ, zero, suc, ◌+◌, ◌*◌, ◌/◌, ◌^◌, not, ◌&&◌, map, List, [], ◌∷◌, leb, if◌then◌else◌,
}
use crypto_divergence_engine.Prelude.Int.{
  ℤ, pos, ◌+ℤ◌, ◌-ℤ◌, ◌*ℤ◌, ltb_ℤ, pos_part, neg_part, sub_ℕ,
}
use crypto_divergence_engine.Go.Text.{Str, Unicode, upper_byte, lower_byte, bytes, format_int}
use crypto_divergence_engine.Go.Time.{Time, second, minute}
use crypto_divergence_engine.Go.Float.{Float}
use crypto_divergence_engine.Tick.{Tick}
use crypto_divergence_engine.Alert.{Alert, warning}

-- a / b rounded towards zero, and 0 where b is 0
abbrev pub div_ℤ : ℤ → ℤ → ℤ
div_ℤ a b =
    let size = pos_part b + neg_part b in
    let plus = sub_ℕ (pos_part a / size) (neg_part a / size) in
    let minus = sub_ℕ (neg_part a / size) (pos_part a / size) in
    if leb (neg_part b) (pos_part b) then plus else minus

-- the greatest r ≤ n with r * r ≤ m
abbrev root_from : ℕ → ℕ → ℕ
root_from zero m = 0
root_from (suc n) m = let below = root_from n m in if leb (suc n * suc n) m then suc n else below

-- the greatest r ≤ n with 2 ^ r ≤ m
abbrev log_from : ℕ → ℕ → ℕ
log_from zero m = 0
log_from (suc n) m = let below = log_from n m in if leb (2 ^ suc n) m then suc n else below

-- Unicode's tables, as if they had ASCII only
instance abbrev pub ascii_only : Unicode
ascii_only = record { upper = map upper_byte; lower = map lower_byte }

instance abbrev pub whole_numbers : Float ℤ
whole_numbers = record {
  of_nat = pos;
  decimal = λ m k. pos (m / 10 ^ k);
  add = λ a b. a +ℤ b;
  sub = λ a b. a -ℤ b;
  mul = λ a b. a *ℤ b;
  div = div_ℤ;
  neg = λ a. pos 0 -ℤ a;
  sqrt = λ a. pos (root_from (pos_part a) (pos_part a));
  log = λ a. pos (log_from (pos_part a) (pos_part a));
  lt = ltb_ℤ;
  le = λ a b. not (ltb_ℤ b a);
  eq = λ a b. not (ltb_ℤ a b) && not (ltb_ℤ b a);
  fixed = λ k a. format_int a;
}

-- the start of the tests, in the year 2026
abbrev pub start : Time
start = 63_900_000_000 * second

abbrev pub trade : Str → Str → ℕ → ℕ → Time → Tick ℤ
trade symbol side price volume at = record {
  symbol = symbol;
  exchange = bytes "binance";
  price = pos price;
  volume = pos volume;
  side = side;
  trade_id = bytes "1";
  timestamp = at;
  received_at = at;
}

-- a quiet trade, another symbol's trade, and a burst after six minutes
abbrev pub ticks : List (Tick ℤ)
ticks =
    trade (bytes "BTC-USDT") (bytes "buy") 100 3_600 start
    ∷ trade (bytes "ETH-USDT") (bytes "sell") 10 5 (start + second)
    ∷ trade (bytes "BTC-USDT") (bytes "buy") 101 900_000 (start + 6 * minute)
    ∷ []

abbrev pub spike : Str → Time → Alert ℤ
spike symbol at = record {
  detector = bytes "volume_spike";
  symbol = symbol;
  exchange = bytes "binance";
  severity = warning;
  message = bytes "volume spike";
  value = pos 5;
  threshold = pos 3;
  timestamp = at;
}
