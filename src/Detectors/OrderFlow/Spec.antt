-- ===== src/Detectors/OrderFlow/Spec.antt =====
-- The order flow detector of one symbol as a function of the ticks seen so far, with no buffer and no
-- state but the time of the last alert.
use crypto_divergence_engine.Prelude.{
  ℕ, ◌+◌, not, ◌&&◌, Option, none, some, List, [], ◌∷◌, ◌++◌, map, if◌then◌else◌, leb, length,
  select,
}
use crypto_divergence_engine.Go.Time.{Time}
use crypto_divergence_engine.Go.Float.{Float}
use crypto_divergence_engine.State.RingBuffer.History.{window_sum}
use crypto_divergence_engine.Tick.{Tick}
use crypto_divergence_engine.Alert.{Alert}
use crypto_divergence_engine.Detectors.Ticks.{entry_of, first_time}
use crypto_divergence_engine.Detectors.OrderFlow.{
  OrderFlowImbalanceDetector, capacity, is_buy, is_sell, classify, alert,
}

module _ {F : Type 0} ⦃fl : Float F⦄ (d : OrderFlowImbalanceDetector F) where
  -- The alert for the tick `t`: enough ticks, warm, enough volume, cool, and an extreme ratio.
  unfoldable pub verdict :
      Tick F → (count : ℕ) (first last : Time) (buy_vol sell_vol : F) → Option (Alert F)
  verdict t count first last buy_vol sell_vol =
      let total = fl.add buy_vol sell_vol in
      let ratio = fl.div buy_vol total in
      let warm = leb d.min_ticks count && leb (first + d.min_history) t.timestamp in
      let cool = leb (last + d.cooldown) t.timestamp in
      elim (classify d ratio) [
        | none ↦ none
        | some (msg, threshold) ↦
            if warm && (not (fl.lt total d.min_volume) && cool)
            then some (alert t ratio msg threshold)
            else none
      ]

  -- The verdict on `t` after the ticks `past`.
  unfoldable pub judge : List (Tick F) → Time → Tick F → Option (Alert F)
  judge past last t =
      let seen = past ++ t ∷ [] in
      verdict t (length seen) (first_time seen) last
        (window_sum capacity d.window t.timestamp (map entry_of (select (λ u. is_buy u.side) seen)))
        (window_sum capacity d.window t.timestamp
          (map entry_of (select (λ u. is_sell u.side) seen)))

  -- The alerts for the ticks `ts` after the ticks `past`.
  unfoldable pub alerts_from : List (Tick F) → Time → List (Tick F) → List (Alert F)
  alerts_from past last [] = []
  alerts_from past last (t ∷ ts) = elim (judge past last t) [
    | none ↦ alerts_from (past ++ t ∷ []) last ts
    | some a ↦ a ∷ alerts_from (past ++ t ∷ []) t.timestamp ts
  ]
