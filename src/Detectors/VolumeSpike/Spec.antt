-- ===== src/Detectors/VolumeSpike/Spec.antt =====
-- The volume spike detector of one symbol as a function of the ticks seen so far, with no buffer and no
-- state but the time of the last alert.
use crypto_divergence_engine.Prelude.{
  ◌+◌, not, ◌&&◌, Option, none, some, List, [], ◌∷◌, ◌++◌, map, if◌then◌else◌, leb,
}
use crypto_divergence_engine.Go.Time.{Time}
use crypto_divergence_engine.Go.Float.{Float, seconds, gt}
use crypto_divergence_engine.State.RingBuffer.History.{window_sum}
use crypto_divergence_engine.Detectors.Ticks.{entry_of, first_time}
use crypto_divergence_engine.Tick.{Tick}
use crypto_divergence_engine.Alert.{Alert, warning}
use crypto_divergence_engine.Detectors.VolumeSpike.{
  VolumeSpikeDetector, min_history, alert_cooldown, short_capacity, long_capacity, name, message,
}

module _ {F : Type 0} ⦃fl : Float F⦄ (d : VolumeSpikeDetector F) where
  -- The alert for the tick `t`: warm, with a baseline, above the threshold and cool.
  unfoldable pub verdict :
      Tick F → (first last : Time) → (short_vol long_vol : F) → Option (Alert F)
  verdict t first last short_vol long_vol =
      let short_rate = fl.div short_vol (seconds d.short_window) in
      let long_rate = fl.div long_vol (seconds d.long_window) in
      let threshold = fl.mul long_rate d.multiplier in
      let warm = leb (first + min_history) t.timestamp in
      let cool = leb (last + alert_cooldown) t.timestamp in
      if warm && (not (fl.eq long_vol (fl.of_nat 0)) && (gt short_rate threshold && cool))
      then some (record {
        detector = name;
        symbol = t.symbol;
        exchange = t.exchange;
        severity = warning;
        message = message (fl.div short_rate long_rate);
        value = short_rate;
        threshold = threshold;
        timestamp = t.timestamp;
      })
      else none

  -- The verdict on `t` after the ticks `past`.
  unfoldable pub judge : List (Tick F) → Time → Tick F → Option (Alert F)
  judge past last t =
      let seen = past ++ t ∷ [] in
      verdict t (first_time seen) last
        (window_sum short_capacity d.short_window t.timestamp (map entry_of seen))
        (window_sum long_capacity d.long_window t.timestamp (map entry_of seen))

  -- The alerts for the ticks `ts` after the ticks `past`.
  unfoldable pub alerts_from : List (Tick F) → Time → List (Tick F) → List (Alert F)
  alerts_from past last [] = []
  alerts_from past last (t ∷ ts) = elim (judge past last t) [
    | none ↦ alerts_from (past ++ t ∷ []) last ts
    | some a ↦ a ∷ alerts_from (past ++ t ∷ []) t.timestamp ts
  ]
