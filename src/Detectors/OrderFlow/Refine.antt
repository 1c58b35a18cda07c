-- ===== src/Detectors/OrderFlow/Refine.antt =====
-- internal/detectors/orderflow.go: the streaming detector against its specification.
use mathlib.Core.List.{map-append}
use crypto_divergence_engine.Prelude.{
  ◌+◌, ◌≤◌, ◌≡◌, refl, sym, ap, ◌∙◌, List, [], ◌∷◌, ◌++◌, map, arith, if◌then◌else◌, Bool, true,
  false, select, select-snoc, append-nil, length, length-append, Bool-cases, Option-cases, inl, inr,
}
use crypto_divergence_engine.Go.Text.{Str, bytes, str_eq, str_eq_iff}
use crypto_divergence_engine.Go.Time.{max_duration, is_zero}
use crypto_divergence_engine.Go.Float.{Float}
use crypto_divergence_engine.State.RingBuffer.{RingBuffer, push}
use crypto_divergence_engine.State.RingBuffer.History.{
  Holds, push-Holds, sum_since-Holds, new_ring_buffer-Holds,
}
use crypto_divergence_engine.State.ShardedMap.{empty, found_or}
use crypto_divergence_engine.State.ShardedMap.Laws.{empty-IsValid, find-empty}
use crypto_divergence_engine.Tick.{Tick}
use crypto_divergence_engine.Detectors.PerSymbol.{run, run_one}
use crypto_divergence_engine.Detectors.PerSymbol.Isolation.{alerts_of, ticks_of, run-eq-run_one}
use crypto_divergence_engine.Detectors.OrderFlow.{
  OfiState, OrderFlowImbalanceDetector, machine, create, capacity, store_side, is_buy, is_sell,
}
use crypto_divergence_engine.Detectors.OrderFlow.Throttle.{
  observe, store_side-fields, verdict_in, outcome, step-eq, machine-IsThrottled,
}
use crypto_divergence_engine.Detectors.OrderFlow.Spec.{judge, alerts_from}
use crypto_divergence_engine.Detectors.Ticks.{entry_of, first_time, first_time-snoc}

buy_not_sell : (side : Str) → is_buy side ≡ true → is_sell side ≡ false
buy_not_sell side e = rw ((str_eq_iff side (bytes "buy")).0 e) (unfold str_eq in refl)

module _ {F : Type 0} where
  abbrev buys_of : List (Tick F) → List (Tick F)
  buys_of = select (λ u. is_buy u.side)

  abbrev sells_of : List (Tick F) → List (Tick F)
  sells_of = select (λ u. is_sell u.side)

module _ {F : Type 0} ⦃fl : Float F⦄ where
  -- The state of a symbol whose ticks so far are `past`.
  pub record Represents (s : OfiState F) (past : List (Tick F)) : Type 0 where
    pub buys : Holds capacity s.buys (map entry_of (buys_of past))
    pub sells : Holds capacity s.sells (map entry_of (sells_of past))
    pub count : s.total_ticks ≡ length past
    pub first : s.first_seen ≡ first_time past

  create-Represents : Represents create []
  unfolding create
  create-Represents = record {
    buys = new_ring_buffer-Holds capacity (omega arith);
    sells = new_ring_buffer-Holds capacity (omega arith);
    count = refl;
    first = refl;
  }

  -- A tick that the test selects is appended to the selected ones.
  store-Holds :
      (p : Tick F → Bool) (r : RingBuffer F) (past : List (Tick F)) (t : Tick F)
      → Holds capacity r (map entry_of (select p past))
      → Holds capacity
          (if p t then push r t.timestamp t.volume else r)
          (map entry_of (select p (past ++ t ∷ [])))
  store-Holds p r past t h = elim (Bool-cases (p t)) [
    | inl e ↦
        rw (select-snoc p past t, e, map-append entry_of (select p past) (t ∷ []))
          (push-Holds capacity r (map entry_of (select p past)) t.timestamp t.volume h)
    | inr e ↦ rw (select-snoc p past t, e, append-nil) h
  ]

  store_side-buys :
      (t : Tick F) (s : OfiState F)
      → (store_side t s).buys ≡ (if is_buy t.side then push s.buys t.timestamp t.volume else s.buys)
  unfolding store_side
  store_side-buys t s = ground arith

  store_side-sells :
      (t : Tick F) (s : OfiState F)
      → (store_side t s).sells
        ≡ (if is_sell t.side then push s.sells t.timestamp t.volume else s.sells)
  unfolding store_side
  store_side-sells t s = ground (arith, buy_not_sell t.side)

  observe-Represents :
      (t : Tick F) (s : OfiState F) (past : List (Tick F))
      → Represents s past
      → Represents (observe t s) (past ++ t ∷ [])
  observe-Represents t s past h =
      let s1 : OfiState F = record s {
        first_seen = if is_zero s.first_seen then t.timestamp else s.first_seen;
        total_ticks = s.total_ticks + 1;
      } in
      let (count, first, last) = store_side-fields t s1 in
      record {
        buys = rw (store_side-buys t s1) (store-Holds (λ u. is_buy u.side) s.buys past t h.buys);
        sells =
            rw (store_side-sells t s1) (store-Holds (λ u. is_sell u.side) s.sells past t h.sells);
        count = omega (arith, count, h.count, length-append {0} past (t ∷ []));
        first =
            first
            ∙ ap (λ f. if is_zero f then t.timestamp else f) h.first
            ∙ sym (first_time-snoc past t);
      }

module _ {F : Type 0} ⦃fl : Float F⦄ (d : OrderFlowImbalanceDetector F)
    (history : d.min_history ≤ max_duration) (pause : d.cooldown ≤ max_duration) where
  -- The code's verdict is that of the specification.
  verdict_in-eq-judge :
      (t : Tick F) (s0 : OfiState F) (past : List (Tick F))
      → Represents s0 past
      → verdict_in d t (observe t s0) ≡ judge d past s0.last_alert t
  unfolding judge
  verdict_in-eq-judge t s0 past h =
      let s = observe t s0 in
      let seen = past ++ t ∷ [] in
      let after : Represents s seen = observe-Represents t s0 past h in
      rw (
        sum_since-Holds capacity s.buys (map entry_of (buys_of seen)) t.timestamp d.window
            after.buys,
        sum_since-Holds capacity s.sells (map entry_of (sells_of seen)) t.timestamp d.window
            after.sells,
        after.first,
        after.count,
        (store_side-fields t _).2,
      )

  run_one-eq-alerts_from :
      (ts : List (Tick F)) (s : OfiState F) (past : List (Tick F))
      → Represents s past
      → (run_one (machine d) ts s).1 ≡ alerts_from d past s.last_alert ts
  unfolding run_one alerts_from
  run_one-eq-alerts_from [] s past h = refl
  run_one-eq-alerts_from (t ∷ ts) s past h =
      let next = observe-Represents t s past h in
      let e =
        step-eq d history pause t s
        ∙ ap (outcome t (observe t s)) (verdict_in-eq-judge t s past h) in
      elim (Option-cases (judge d past s.last_alert t)) [
        | inl v ↦
            rw (e, v, alerts_from)
              (run_one-eq-alerts_from ts (observe t s) (past ++ t ∷ []) next
                ∙ ap (λ l. alerts_from d (past ++ t ∷ []) l ts) (store_side-fields t _).2)
        | inr (a, v) ↦
            rw (e, v, alerts_from)
              (ap (λ l. a ∷ l)
                (run_one-eq-alerts_from ts (record (observe t s) { last_alert = t.timestamp })
                  (past ++ t ∷ [])
                  (record {
                    buys = next.buys;
                    sells = next.sells;
                    count = next.count;
                    first = next.first;
                  })))
      ]

  -- A new order flow detector whose min_history and cooldown fit an int64, over any ticks of any
  -- symbols in any order, raises for each symbol the alerts that its specification gives for that
  -- symbol's ticks alone.
  pub order_flow_refines :
      (k : Str) (ts : List (Tick F))
      → alerts_of k (run (machine d) ts empty).1 ≡ alerts_from d [] 0 (ticks_of k ts)
  order_flow_refines k ts =
      (run-eq-run_one (machine d) (machine-IsThrottled d history pause) (λ t. refl) k ts empty
        empty-IsValid).0
      ∙ ap (λ o. (run_one (machine d) (ticks_of k ts) (found_or o create)).1) (find-empty k)
      ∙ run_one-eq-alerts_from (ticks_of k ts) create [] create-Represents
      ∙ ap (λ t. alerts_from d [] t (ticks_of k ts)) create_last
    where
      create_last : (create {F = F}).last_alert ≡ 0
      create_last = unfold create in refl
