-- ===== src/Detectors/VolumeSpike.antt =====
-- internal/detectors/volumespike.go: an alert when the volume rate of a short window exceeds a
-- multiple of the rate of a long window.
pub mod Throttle
pub mod Spec
pub mod Refine
use crypto_divergence_engine.Prelude.{ℕ, ◌*◌, Bool, not, ◌&&◌, List, [], ◌∷◌, ◌++◌, if◌then◌else◌}
use crypto_divergence_engine.Go.Text.{Str, bytes}
use crypto_divergence_engine.Go.Time.{Time, second, minute, hour, is_zero, sub, lt_duration}
use crypto_divergence_engine.Go.Float.{Float, seconds, gt}
use crypto_divergence_engine.State.RingBuffer.{RingBuffer, new_ring_buffer, push, sum_since}
use crypto_divergence_engine.State.ShardedMap.{ShardedMap, empty}
use crypto_divergence_engine.Tick.{Tick}
use crypto_divergence_engine.Alert.{Alert, warning}
use crypto_divergence_engine.Detectors.PerSymbol.{Machine}
use crypto_divergence_engine.Detectors.PerSymbol

abbrev pub min_history : ℕ
min_history = 5 * minute

abbrev pub alert_cooldown : ℕ
alert_cooldown = 30 * second

abbrev pub short_capacity : ℕ
short_capacity = 5_000

abbrev pub long_capacity : ℕ
long_capacity = 100_000

pub record VsState (F : Type 0) : Type 0 where
  pub short : RingBuffer F
  pub long : RingBuffer F
  pub first_seen : Time
  pub last_alert : Time

pub record VolumeSpikeDetector (F : Type 0) : Type 0 where
  pub symbols : ShardedMap (VsState F)
  pub short_window : ℕ
  pub long_window : ℕ
  pub multiplier : F

abbrev pub name : Str
name = bytes "volume_spike"

module _ {F : Type 0} ⦃fl : Float F⦄ where
  unfoldable pub new_volume_spike_detector : VolumeSpikeDetector F
  new_volume_spike_detector = record {
    symbols = empty;
    short_window = 60 * second;
    long_window = hour;
    multiplier = fl.of_nat 3;
  }

  -- the `create` of OnTick
  unfoldable pub create : VsState F
  create = record {
    short = new_ring_buffer short_capacity;
    long = new_ring_buffer long_capacity;
    first_seen = 0;
    last_alert = 0;
  }

  -- "volume spike: %.1f× baseline rate"; × is the bytes 195 and 151
  abbrev pub message : F → Str
  message ratio =
      bytes "volume spike: " ++ (fl.fixed 1 ratio ++ (195 ∷ 151 ∷ bytes " baseline rate"))

  -- the callback of OnTick
  unfoldable pub step : VolumeSpikeDetector F → Tick F → VsState F → VsState F × List (Alert F)
  step d t s0 =
      let s : VsState F = record s0 {
        short = push s0.short t.timestamp t.volume;
        long = push s0.long t.timestamp t.volume;
        first_seen = if is_zero s0.first_seen then t.timestamp else s0.first_seen;
      } in
      let short_vol = sum_since s.short t.timestamp d.short_window in
      let long_vol = sum_since s.long t.timestamp d.long_window in
      let short_rate = fl.div short_vol (seconds d.short_window) in
      let long_rate = fl.div long_vol (seconds d.long_window) in
      let threshold = fl.mul long_rate d.multiplier in
      if lt_duration (sub t.timestamp s.first_seen) min_history
      then (s, [])
      else if fl.eq long_vol (fl.of_nat 0)
      then (s, [])
      else if gt short_rate threshold
          && not (lt_duration (sub t.timestamp s.last_alert) alert_cooldown)
      then (
        record s { last_alert = t.timestamp },
        record {
          detector = name;
          symbol = t.symbol;
          exchange = t.exchange;
          severity = warning;
          message = message (fl.div short_rate long_rate);
          value = short_rate;
          threshold = threshold;
          timestamp = t.timestamp;
        }
            ∷ [],
      )
      else (s, [])

  abbrev pub machine : VolumeSpikeDetector F → Machine F
  machine d = record {
    State = VsState F;
    created = create;
    step = step d;
    subject = λ t. t.symbol;
    last_alert = λ s. s.last_alert;
    cooldown = alert_cooldown;
  }

  unfoldable pub on_tick : Tick F → VolumeSpikeDetector F → VolumeSpikeDetector F × List (Alert F)
  on_tick t d =
      let (symbols', alerts) = PerSymbol.on_tick (machine d) t d.symbols in
      (record d { symbols = symbols' }, alerts)
