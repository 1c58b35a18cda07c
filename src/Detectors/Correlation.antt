-- ===== src/Detectors/Correlation.antt =====
-- internal/detectors/correlation.go: an alert when the short-term correlation of a pair of symbols
-- falls below its baseline.
pub mod Pearson
pub mod Throttle
pub mod Aligned
pub mod Pairs
use crypto_divergence_engine.Prelude.{
  ℕ, zero, suc, ◌+◌, ◌*◌, Bool, true, false, not, ◌&&◌, ◌||◌, List, [], ◌∷◌, ◌++◌, if◌then◌else◌,
  ltb, leb, Option, none, some, length, get_or,
}
use crypto_divergence_engine.Go.Text.{Str, bytes, str_eq}
use crypto_divergence_engine.Go.Map.{Map, lookup, insert}
use crypto_divergence_engine.Go.Time.{Time, second, minute, is_zero, sub, lt_duration}
use crypto_divergence_engine.Go.Float.{Float, ge, gt}
use crypto_divergence_engine.State.RingBuffer.{RingBuffer, new_ring_buffer, push, len, slice}
use crypto_divergence_engine.Tick.{Tick}
use crypto_divergence_engine.Alert.{Alert, warning}
use crypto_divergence_engine.Detectors.PerSymbol.{Machine}
use crypto_divergence_engine.Detectors.Correlation.Pearson.{pearson}

pub record SymbolPair : Type 0 where
  pub a : Str
  pub b : Str

abbrev pub pair_key : Str → Str → Str
pair_key a b = a ++ (bytes ":" ++ b)

abbrev pub key_of : SymbolPair → Str
key_of p = pair_key p.a p.b

pub record CorrState (F : Type 0) : Type 0 where
  pub returns_a : RingBuffer F
  pub returns_b : RingBuffer F
  pub snapshot_price_a : F
  pub snapshot_price_b : F
  pub snapshot_at : Time
  pub latest_price_a : F
  pub latest_price_b : F
  pub updated_a : Bool
  pub updated_b : Bool
  pub first_seen : Time
  pub last_alert : Time

pub record CorrelationBreakdownDetector (F : Type 0) : Type 0 where
  pub pairs : List SymbolPair
  pub pair_states : Map (CorrState F)
  pub short_samples : ℕ
  pub min_samples : ℕ
  pub min_baseline : F
  pub drop_threshold : F
  pub sample_interval : ℕ
  pub min_history : ℕ
  pub cooldown : ℕ

abbrev pub name : Str
name = bytes "correlation_breakdown"

abbrev pub capacity : ℕ
capacity = 20_000

abbrev pub default_pairs : List SymbolPair
default_pairs =
    record { a = bytes "BTC-USDT"; b = bytes "ETH-USDT" }
    ∷ record { a = bytes "BTC-USDT"; b = bytes "SOL-USDT" }
    ∷ []

module _ {F : Type 0} ⦃fl : Float F⦄ where
  -- the state that the constructor makes for each pair
  unfoldable pub created : CorrState F
  created = record {
    returns_a = new_ring_buffer capacity;
    returns_b = new_ring_buffer capacity;
    snapshot_price_a = fl.of_nat 0;
    snapshot_price_b = fl.of_nat 0;
    snapshot_at = 0;
    latest_price_a = fl.of_nat 0;
    latest_price_b = fl.of_nat 0;
    updated_a = false;
    updated_b = false;
    first_seen = 0;
    last_alert = 0;
  }

  unfoldable pub new_states : List SymbolPair → Map (CorrState F)
  new_states [] = []
  new_states (p ∷ ps) = insert (key_of p) created (new_states ps)

  unfoldable pub new_correlation_breakdown_detector : CorrelationBreakdownDetector F
  unfolding new_states
  new_correlation_breakdown_detector = record {
    pairs = default_pairs;
    pair_states = new_states default_pairs;
    short_samples = 720;
    min_samples = 30;
    min_baseline = fl.decimal 5 1;
    drop_threshold = fl.decimal 4 1;
    sample_interval = 5 * second;
    min_history = 10 * minute;
    cooldown = 5 * minute;
  }

  -- the switch on the tick's symbol; `none` is `default: continue`
  unfoldable pub update_price : SymbolPair → Tick F → CorrState F → Option (CorrState F)
  update_price pair t s =
      if str_eq t.symbol pair.a
      then some (record s { latest_price_a = t.price; updated_a = true })
      else if str_eq t.symbol pair.b
      then some (record s { latest_price_b = t.price; updated_b = true })
      else none

  -- a new snapshot at the tick
  abbrev pub take_snapshot : Tick F → CorrState F → CorrState F
  take_snapshot t s = record s {
    snapshot_price_a = s.latest_price_a;
    snapshot_price_b = s.latest_price_b;
    snapshot_at = t.timestamp;
    updated_a = false;
    updated_b = false;
  }

  -- math.Log(latest / snapshot)
  abbrev pub log_return : F → F → F
  log_return latest snapshot = fl.log (fl.div latest snapshot)

  -- the log-returns against the snapshot are pushed, and a new snapshot is taken
  unfoldable pub sample : Tick F → CorrState F → CorrState F
  sample t s = take_snapshot t (
      if gt s.snapshot_price_a (fl.of_nat 0) && gt s.snapshot_price_b (fl.of_nat 0)
      then record s {
        returns_a = push s.returns_a t.timestamp (log_return s.latest_price_a s.snapshot_price_a);
        returns_b = push s.returns_b t.timestamp (log_return s.latest_price_b s.snapshot_price_b);
      }
      else s)

  abbrev pub alert : CorrelationBreakdownDetector F → SymbolPair → Tick F → F → F → Alert F
  alert d pair t short baseline = record {
    detector = name;
    symbol = key_of pair;
    exchange = [];
    severity = warning;
    message =
        pair.a
        ++ (bytes "/"
            ++ (pair.b
                ++ (bytes " correlation breakdown: short="
                    ++ (fl.fixed 2 short ++ (bytes " baseline=" ++ fl.fixed 2 baseline)))));
    value = short;
    threshold = fl.sub baseline d.drop_threshold;
    timestamp = t.timestamp;
  }

  -- from the warmup guards to the end of the loop body
  unfoldable pub evaluate :
      CorrelationBreakdownDetector F
      → SymbolPair
      → Tick F
      → CorrState F
      → CorrState F × List (Alert F)
  evaluate d pair t s =
      let n = len s.returns_a in
      let baseline = pearson (slice s.returns_a n) (slice s.returns_b n) in
      let short = pearson (slice s.returns_a d.short_samples) (slice s.returns_b d.short_samples) in
      if lt_duration (sub t.timestamp s.first_seen) d.min_history
      then (s, [])
      else if ltb n d.min_samples
      then (s, [])
      else if fl.lt baseline d.min_baseline
      then (s, [])
      else if ge short (fl.sub baseline d.drop_threshold)
      then (s, [])
      else if lt_duration (sub t.timestamp s.last_alert) d.cooldown
      then (s, [])
      else (record s { last_alert = t.timestamp }, alert d pair t short baseline ∷ [])

  -- the body of the loop of OnTick, for a pair and its state
  unfoldable pub step :
      CorrelationBreakdownDetector F
      → SymbolPair
      → Tick F
      → CorrState F
      → CorrState F × List (Alert F)
  step d pair t s0 = elim (update_price pair t s0) [
    | none ↦ (s0, [])
    | some s ↦
        if fl.eq s.latest_price_a (fl.of_nat 0) || fl.eq s.latest_price_b (fl.of_nat 0)
        then (s, [])
        else if is_zero s.snapshot_at
        then (record (take_snapshot t s) { first_seen = t.timestamp }, [])
        else if not s.updated_a || not s.updated_b
        then (s, [])
        else if lt_duration (sub t.timestamp s.snapshot_at) d.sample_interval
        then (s, [])
        else evaluate d pair t (sample t s)
  ]

  -- the loop of OnTick over the pairs
  unfoldable pub pairs_loop :
      CorrelationBreakdownDetector F
      → Tick F
      → List SymbolPair
      → Map (CorrState F)
      → Map (CorrState F) × List (Alert F)
  pairs_loop d t [] states = (states, [])
  pairs_loop d t (pair ∷ ps) states = elim (lookup (key_of pair) states) [
    | none ↦ pairs_loop d t ps states
    | some s ↦
        let (s', alerts) = step d pair t s in
        let (states', later) = pairs_loop d t ps (insert (key_of pair) s' states) in
        (states', alerts ++ later)
  ]

  unfoldable pub on_tick :
      Tick F → CorrelationBreakdownDetector F → CorrelationBreakdownDetector F × List (Alert F)
  on_tick t d =
      let (states', alerts) = pairs_loop d t d.pairs d.pair_states in
      (record d { pair_states = states' }, alerts)

  -- the machine of one pair
  abbrev pub machine : CorrelationBreakdownDetector F → SymbolPair → Machine F
  machine d pair = record {
    State = CorrState F;
    created = created;
    step = step d pair;
    subject = λ t. key_of pair;
    last_alert = λ s. s.last_alert;
    cooldown = d.cooldown;
  }
