-- ===== src/Detectors/VolumeSpike/Throttle.antt =====
-- internal/detectors/volumespike.go: when an alert may be raised.
use crypto_divergence_engine.Prelude.{
  ◌+◌, ◌≤◌, ◌≡◌, refl, ap, Option, none, some, [], ◌∷◌, arith, if◌then◌else◌,
}
use crypto_divergence_engine.Go.Time.{Time, is_zero, lt_duration-sub}
use crypto_divergence_engine.Go.Float.{Float}
use crypto_divergence_engine.State.RingBuffer.{push, sum_since}
use crypto_divergence_engine.Detectors.VolumeSpike.Spec.{verdict}
use crypto_divergence_engine.Tick.{Tick}
use crypto_divergence_engine.Alert.{Alert}
use crypto_divergence_engine.Detectors.PerSymbol.{Emits, quiet, fires, IsThrottled}
use crypto_divergence_engine.Detectors.VolumeSpike.{
  VsState, VolumeSpikeDetector, step, machine, min_history, alert_cooldown,
}

module _ {F : Type 0} ⦃fl : Float F⦄ where
  -- the state after the tick is stored, before any alert
  abbrev pub observe : Tick F → VsState F → VsState F
  observe t s0 = record s0 {
    short = push s0.short t.timestamp t.volume;
    long = push s0.long t.timestamp t.volume;
    first_seen = if is_zero s0.first_seen then t.timestamp else s0.first_seen;
  }

  -- A tick is stored, and then judged: an alert is recorded as the last one.
  pub step-eq :
      (d : VolumeSpikeDetector F) (t : Tick F) (s0 : VsState F)
      → let s = observe t s0 in
        step d t s0
        ≡ (elim (verdict d t s.first_seen s.last_alert
            (sum_since s.short t.timestamp d.short_window)
            (sum_since s.long t.timestamp d.long_window)) [
              | none ↦ (s, [])
              | some a ↦ (record s { last_alert = t.timestamp }, a ∷ [])
            ])
  unfolding step verdict
  step-eq d t s0 = ground (
    arith,
    lt_duration-sub t.timestamp (if is_zero s0.first_seen then t.timestamp else s0.first_seen)
        min_history,
    lt_duration-sub t.timestamp s0.last_alert alert_cooldown,
  )

  -- What an alert says of the tick, and when it may come.
  pub verdict-some :
      (d : VolumeSpikeDetector F) (t : Tick F) (first last : Time) (short_vol long_vol : F)
      (a : Alert F)
      → verdict d t first last short_vol long_vol ≡ some a
      → (a.symbol ≡ t.symbol)
        × (a.timestamp ≡ t.timestamp)
        × (first + min_history ≤ t.timestamp)
        × (last + alert_cooldown ≤ t.timestamp)
  unfolding verdict
  verdict-some d t first last short_vol long_vol a h = ground arith

  pub machine-IsThrottled : (d : VolumeSpikeDetector F) → IsThrottled (machine d)
  machine-IsThrottled d t s0 =
      emits
        (verdict d t s.first_seen s.last_alert (sum_since s.short t.timestamp d.short_window)
          (sum_since s.long t.timestamp d.long_window))
        refl (step-eq d t s0)
    where
      s : VsState F
      s = observe t s0

      emits :
          (o : Option (Alert F))
          → verdict d t s.first_seen s.last_alert
              (sum_since s.short t.timestamp d.short_window)
              (sum_since s.long t.timestamp d.long_window)
            ≡ o
          → step d t s0
            ≡ (elim o [ none ↦ (s, []) | some a ↦ (record s { last_alert = t.timestamp }, a ∷ []) ])
          → Emits (machine d) t s0
      emits none v e = quiet (ap (λ p. p.1) e) (ap (λ p. p.0.last_alert) e)
      emits (some a) v e =
          let (symbol, at, warm, cool) =
            verdict-some d t s.first_seen s.last_alert
              (sum_since s.short t.timestamp d.short_window)
              (sum_since s.long t.timestamp d.long_window) a v in
          fires a (ap (λ p. p.1) e) symbol at (ap (λ p. p.0.last_alert) e) cool
