-- ===== src/Detectors/Ticks.antt =====
-- What the specifications of the detectors read off a list of ticks.
use crypto_divergence_engine.Prelude.{◌≡◌, List, [], ◌∷◌, ◌++◌, arith, if◌then◌else◌}
use crypto_divergence_engine.Go.Time.{Time, is_zero}
use crypto_divergence_engine.State.RingBuffer.{Entry}
use crypto_divergence_engine.Tick.{Tick}

module _ {F : Type 0} where
  abbrev pub entry_of : Tick F → Entry F
  entry_of t = record { at = t.timestamp; value = t.volume }

  -- the first timestamp that is not the zero time
  abbrev pub first_time : List (Tick F) → Time
  first_time [] = 0
  first_time (t ∷ ts) = if is_zero t.timestamp then first_time ts else t.timestamp

  pub first_time-snoc :
      (past : List (Tick F)) (t : Tick F)
      → first_time (past ++ t ∷ [])
        ≡ (if is_zero (first_time past) then t.timestamp else first_time past)
  first_time-snoc [] t = ground arith
  first_time-snoc (p ∷ past) t = ground (arith, first_time-snoc past t)
