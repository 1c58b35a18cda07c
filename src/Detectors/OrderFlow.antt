-- ===== src/Detectors/OrderFlow.antt =====
-- internal/detectors/orderflow.go: an alert when aggressive buying or selling dominates a window.
pub mod Spec
pub mod Throttle
pub mod Refine
use crypto_divergence_engine.Prelude.{
  ℕ, ◌+◌, ◌*◌, Bool, List, [], ◌∷◌, ◌++◌, if◌then◌else◌, ltb, Option, none, some,
}
use crypto_divergence_engine.Go.Text.{Str, bytes, str_eq}
use crypto_divergence_engine.Go.Time.{Time, second, is_zero, sub, lt_duration}
use crypto_divergence_engine.Go.Float.{Float, ge}
use crypto_divergence_engine.State.RingBuffer.{RingBuffer, new_ring_buffer, push, sum_since}
use crypto_divergence_engine.State.ShardedMap.{ShardedMap, empty}
use crypto_divergence_engine.Tick.{Tick}
use crypto_divergence_engine.Alert.{Alert, warning}
use crypto_divergence_engine.Detectors.PerSymbol
use crypto_divergence_engine.Detectors.PerSymbol.{Machine}

abbrev pub capacity : ℕ
capacity = 5_000

pub record OfiState (F : Type 0) : Type 0 where
  pub buys : RingBuffer F
  pub sells : RingBuffer F
  pub total_ticks : ℕ
  pub first_seen : Time
  pub last_alert : Time

pub record OrderFlowImbalanceDetector (F : Type 0) : Type 0 where
  pub symbols : ShardedMap (OfiState F)
  pub window : ℕ
  pub upper_threshold : F
  pub lower_threshold : F
  pub min_volume : F
  pub min_ticks : ℕ
  pub min_history : ℕ
  pub cooldown : ℕ

abbrev pub name : Str
name = bytes "order_flow_imbalance"

abbrev pub is_buy : Str → Bool
is_buy side = str_eq side (bytes "buy")

abbrev pub is_sell : Str → Bool
is_sell side = str_eq side (bytes "sell")

module _ {F : Type 0} ⦃fl : Float F⦄ where
  unfoldable pub new_order_flow_imbalance_detector : OrderFlowImbalanceDetector F
  new_order_flow_imbalance_detector = record {
    symbols = empty;
    window = 60 * second;
    upper_threshold = fl.decimal 65 2;
    lower_threshold = fl.decimal 35 2;
    min_volume = fl.decimal 1 2;
    min_ticks = 10;
    min_history = 60 * second;
    cooldown = 30 * second;
  }

  -- the `create` of OnTick
  unfoldable pub create : OfiState F
  create = record {
    buys = new_ring_buffer capacity;
    sells = new_ring_buffer capacity;
    total_ticks = 0;
    first_seen = 0;
    last_alert = 0;
  }

  -- the first switch of the callback, on the side
  unfoldable pub store_side : Tick F → OfiState F → OfiState F
  store_side t s =
      if is_buy t.side
      then record s { buys = push s.buys t.timestamp t.volume }
      else if is_sell t.side
      then record s { sells = push s.sells t.timestamp t.volume }
      else s

  -- the second switch, on the ratio: the message and the threshold, or the early return
  unfoldable pub classify : OrderFlowImbalanceDetector F → F → Option (Str × F)
  classify d ratio =
      if ge ratio d.upper_threshold
      then some (
        bytes "buy imbalance: "
            ++ (fl.fixed 0 (fl.mul ratio (fl.of_nat 100))
                ++ bytes "% of volume is aggressive buying"),
        d.upper_threshold,
      )
      else if fl.le ratio d.lower_threshold
      then some (
        bytes "sell imbalance: "
            ++ (fl.fixed 0 (fl.mul (fl.sub (fl.of_nat 1) ratio) (fl.of_nat 100))
                ++ bytes "% of volume is aggressive selling"),
        d.lower_threshold,
      )
      else none

  abbrev pub alert : Tick F → F → Str → F → Alert F
  alert t ratio msg threshold = record {
    detector = name;
    symbol = t.symbol;
    exchange = t.exchange;
    severity = warning;
    message = msg;
    value = ratio;
    threshold = threshold;
    timestamp = t.timestamp;
  }

  -- the callback of OnTick
  unfoldable pub step :
      OrderFlowImbalanceDetector F → Tick F → OfiState F → OfiState F × List (Alert F)
  step d t s0 =
      let s1 : OfiState F = record s0 {
        first_seen = if is_zero s0.first_seen then t.timestamp else s0.first_seen;
        total_ticks = s0.total_ticks + 1;
      } in
      let s = store_side t s1 in
      let buy_vol = sum_since s.buys t.timestamp d.window in
      let sell_vol = sum_since s.sells t.timestamp d.window in
      let total = fl.add buy_vol sell_vol in
      let ratio = fl.div buy_vol total in
      if ltb s.total_ticks d.min_ticks
      then (s, [])
      else if lt_duration (sub t.timestamp s.first_seen) d.min_history
      then (s, [])
      else if fl.lt total d.min_volume
      then (s, [])
      else elim (classify d ratio) [
        | none ↦ (s, [])
        | some (msg, threshold) ↦
            if lt_duration (sub t.timestamp s.last_alert) d.cooldown
            then (s, [])
            else (record s { last_alert = t.timestamp }, alert t ratio msg threshold ∷ [])
      ]

  abbrev pub machine : OrderFlowImbalanceDetector F → Machine F
  machine d = record {
    State = OfiState F;
    created = create;
    step = step d;
    subject = λ t. t.symbol;
    last_alert = λ s. s.last_alert;
    cooldown = d.cooldown;
  }

  unfoldable pub on_tick :
      Tick F → OrderFlowImbalanceDetector F → OrderFlowImbalanceDetector F × List (Alert F)
  on_tick t d =
      let (symbols', alerts) = PerSymbol.on_tick (machine d) t d.symbols in
      (record d { symbols = symbols' }, alerts)
