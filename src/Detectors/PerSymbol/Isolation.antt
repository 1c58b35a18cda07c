-- ===== src/Detectors/PerSymbol/Isolation.antt =====
-- A run over all symbols, and one symbol's machine alone.
use crypto_divergence_engine.Prelude.{
  ◌≡◌, refl, ap, ◌∙◌, true, false, List, [], ◌∷◌, ◌++◌, arith, select, inl, inr, ◌⊎◌, Bool-cases,
  if◌then◌else◌,
}
use crypto_divergence_engine.Go.Text.{Str, str_eq, str_eq_iff}
use crypto_divergence_engine.State.ShardedMap.{ShardedMap, found_or}
use crypto_divergence_engine.State.ShardedMap.Laws.{
  IsValid, find, find-use_value, use_value-IsValid, use_value-result,
}
use crypto_divergence_engine.Tick.{Tick}
use crypto_divergence_engine.Alert.{Alert}
use crypto_divergence_engine.Detectors.PerSymbol.{
  Machine, Emits, quiet, fires, IsThrottled, on_tick, run, run_one,
}

module _ {F : Type 0} where
  abbrev pub ticks_of : Str → List (Tick F) → List (Tick F)
  ticks_of k = select (λ t. str_eq t.symbol k)

  abbrev pub alerts_of : Str → List (Alert F) → List (Alert F)
  alerts_of k = select (λ a. str_eq a.symbol k)

  pub alerts_of-append :
      (k : Str) (l r : List (Alert F)) → alerts_of k (l ++ r) ≡ alerts_of k l ++ alerts_of k r
  alerts_of-append k [] r = refl
  alerts_of-append k (a ∷ l) r = ground (arith, alerts_of-append k l r)

module _ {F : Type 0} (m : Machine F) where
  -- the state of a symbol's machine, which is new where there is none
  abbrev pub state_of : ShardedMap m.State → Str → m.State
  state_of symbols k = found_or (find symbols k) m.created

module _ {F : Type 0} (m : Machine F) (throttled : IsThrottled m)
    (own : (t : Tick F) → m.subject t ≡ t.symbol) where
  step_alerts :
      (k : Str) (t : Tick F) (s : m.State)
      → Emits m t s
      → alerts_of k (m.step t s).1 ≡ (if str_eq t.symbol k then (m.step t s).1 else [])
  step_alerts k t s (quiet e l) = rw e (ground arith)
  step_alerts k t s (fires a e same at l gap) = rw (e, same, own t) (ground arith)

  -- What one tick does to the state and the alerts of a symbol.
  on_tick_state :
      (k : Str) (t : Tick F) (symbols : ShardedMap m.State)
      → IsValid symbols
      → state_of m (on_tick m t symbols).0 k
        ≡ (if str_eq t.symbol k then (m.step t (state_of m symbols k)).0 else state_of m symbols k)
  unfolding on_tick
  on_tick_state k t symbols h = elim (Bool-cases (str_eq t.symbol k)) [
    | inl e ↦
        rw (find-use_value t.symbol k m.created (m.step t) h, e)
          (ap (λ j. (m.step t (state_of m symbols j)).0) ((str_eq_iff t.symbol k).0 e))
    | inr e ↦ rw (find-use_value t.symbol k m.created (m.step t) h, e)
  ]

  on_tick_alerts :
      (k : Str) (t : Tick F) (symbols : ShardedMap m.State)
      → alerts_of k (on_tick m t symbols).1
        ≡ (if str_eq t.symbol k then (m.step t (state_of m symbols k)).1 else [])
  unfolding on_tick
  on_tick_alerts k t symbols =
      ap (alerts_of k) (use_value-result symbols t.symbol m.created (m.step t))
      ∙ step_alerts k t (state_of m symbols t.symbol) (throttled t (state_of m symbols t.symbol))
      ∙ same_symbol (Bool-cases (str_eq t.symbol k))
    where
      same_symbol :
          (str_eq t.symbol k ≡ true) ⊎ (str_eq t.symbol k ≡ false)
          → (if str_eq t.symbol k then (m.step t (state_of m symbols t.symbol)).1 else [])
            ≡ (if str_eq t.symbol k then (m.step t (state_of m symbols k)).1 else [])
      same_symbol (inl e) =
          rw e (ap (λ j. (m.step t (state_of m symbols j)).1) ((str_eq_iff t.symbol k).0 e))
      same_symbol (inr e) = rw e

  -- For a machine that is throttled and raises alerts for its tick's own symbol, run over ticks
  -- of all symbols through a valid sharded map: a symbol's alerts and its final state are those
  -- of its own machine on its own ticks, and the map stays valid.
  pub run-eq-run_one :
      (k : Str) (ts : List (Tick F)) (symbols : ShardedMap m.State)
      → IsValid symbols
      → (alerts_of k (run m ts symbols).1 ≡ (run_one m (ticks_of k ts) (state_of m symbols k)).1)
        × (state_of m (run m ts symbols).0 k ≡ (run_one m (ticks_of k ts) (state_of m symbols k)).0)
        × IsValid (run m ts symbols).0
  unfolding run run_one on_tick
  run-eq-run_one k [] symbols h = (refl, refl, h)
  run-eq-run_one k (t ∷ ts) symbols h =
      let (alerts, state, valid) =
        run-eq-run_one k ts (on_tick m t symbols).0
          (use_value-IsValid t.symbol m.created (m.step t) h) in
      let now = on_tick_alerts k t symbols in
      let next = on_tick_state k t symbols h in
      let split = alerts_of-append k (on_tick m t symbols).1 (run m ts (on_tick m t symbols).0).1 in
      elim (Bool-cases (str_eq t.symbol k)) [
        | inl e ↦ (rw (split, alerts, now, next, e, select), rw (state, next, e, select), valid)
        | inr e ↦ (rw (split, alerts, now, next, e, select), rw (state, next, e, select), valid)
      ]
