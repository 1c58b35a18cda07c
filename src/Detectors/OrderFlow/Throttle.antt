-- ===== src/Detectors/OrderFlow/Throttle.antt =====
-- internal/detectors/orderflow.go: when an alert may be raised.
use crypto_divergence_engine.Prelude.{
  ℕ, ◌+◌, ◌≤◌, ◌≡◌, refl, ap, ◌∙◌, Option, none, some, List, [], ◌∷◌, arith, if◌then◌else◌,
}
use crypto_divergence_engine.Go.Time.{Time, max_duration, is_zero, lt_duration-sub}
use crypto_divergence_engine.Go.Float.{Float}
use crypto_divergence_engine.State.RingBuffer.{sum_since}
use crypto_divergence_engine.Detectors.OrderFlow.Spec.{verdict}
use crypto_divergence_engine.Tick.{Tick}
use crypto_divergence_engine.Alert.{Alert}
use crypto_divergence_engine.Detectors.PerSymbol.{Emits, quiet, fires, IsThrottled}
use crypto_divergence_engine.Detectors.OrderFlow.{
  OfiState, OrderFlowImbalanceDetector, step, machine, store_side,
}

module _ {F : Type 0} ⦃fl : Float F⦄ where
  -- the state after the tick is stored, before any alert
  abbrev pub observe : Tick F → OfiState F → OfiState F
  observe t s0 = store_side t (record s0 {
    first_seen = if is_zero s0.first_seen then t.timestamp else s0.first_seen;
    total_ticks = s0.total_ticks + 1;
  })

  pub store_side-fields :
      (t : Tick F) (s : OfiState F)
      → ((store_side t s).total_ticks ≡ s.total_ticks)
        × ((store_side t s).first_seen ≡ s.first_seen)
        × ((store_side t s).last_alert ≡ s.last_alert)
  unfolding store_side
  store_side-fields t s = ground arith

  -- the verdict on a tick from a state in which it is stored
  abbrev pub verdict_in : OrderFlowImbalanceDetector F → Tick F → OfiState F → Option (Alert F)
  verdict_in d t s =
      verdict d t s.total_ticks s.first_seen s.last_alert (sum_since s.buys t.timestamp d.window)
        (sum_since s.sells t.timestamp d.window)

  -- the outcome of a step with that verdict
  abbrev pub outcome : Tick F → OfiState F → Option (Alert F) → OfiState F × List (Alert F)
  outcome t s none = (s, [])
  outcome t s (some a) = (record s { last_alert = t.timestamp }, a ∷ [])

module _ {F : Type 0} ⦃fl : Float F⦄ (d : OrderFlowImbalanceDetector F)
    (history : d.min_history ≤ max_duration) (pause : d.cooldown ≤ max_duration) where
  -- A tick is stored, and then judged: an alert is recorded as the last one.
  pub step-eq :
      (t : Tick F) (s0 : OfiState F)
      → step d t s0 ≡ outcome t (observe t s0) (verdict_in d t (observe t s0))
  unfolding step verdict
  step-eq t s0 =
      let s = observe t s0 in
      ground (
        arith,
        lt_duration-sub t.timestamp s.first_seen d.min_history history,
        lt_duration-sub t.timestamp s.last_alert d.cooldown pause,
      )

  -- What an alert says of the tick, and when it may come.
  pub verdict-some :
      (t : Tick F) (count : ℕ) (first last : Time) (buy_vol sell_vol : F) (a : Alert F)
      → verdict d t count first last buy_vol sell_vol ≡ some a
      → (a.symbol ≡ t.symbol)
        × (a.timestamp ≡ t.timestamp)
        × (first + d.min_history ≤ t.timestamp)
        × (last + d.cooldown ≤ t.timestamp)
  unfolding verdict
  verdict-some t count first last buy_vol sell_vol a h = ground arith

  pub machine-IsThrottled : IsThrottled (machine d)
  machine-IsThrottled t s0 = emits (verdict_in d t (observe t s0)) refl (step-eq t s0)
    where
      s : OfiState F
      s = observe t s0

      kept : s.last_alert ≡ s0.last_alert
      kept = (store_side-fields t _).2

      emits :
          (o : Option (Alert F))
          → verdict_in d t s ≡ o
          → step d t s0 ≡ outcome t s o
          → Emits (machine d) t s0
      emits none v e = quiet (ap (λ p. p.1) e) (ap (λ p. p.0.last_alert) e ∙ kept)
      emits (some a) v e =
          let (symbol, at, warm, cool) =
            verdict-some t s.total_ticks s.first_seen s.last_alert
              (sum_since s.buys t.timestamp d.window) (sum_since s.sells t.timestamp d.window) a
              v in
          fires a (ap (λ p. p.1) e) symbol at (ap (λ p. p.0.last_alert) e) (rw kept at cool)
