-- ===== src/Detectors/Registry/Run.antt =====
-- internal/detectors/registry.go: runs of a registry, and of each detector alone.
use crypto_divergence_engine.Prelude.{
  ◌≡◌, refl, ap, ap₂, ◌∙◌, sym, List, [], ◌∷◌, ◌++◌, map, append_assoc, append-nil,
}
use crypto_divergence_engine.Tick.{Tick}
use crypto_divergence_engine.Alert.{Alert}
use crypto_divergence_engine.Detectors.Registry.{
  Detector, Registry, observe, raised, on_tick, on_tick_loop,
}

module _ {F : Type 0} where
  -- what the detectors raise on a tick, in their order
  abbrev pub all_raised : Tick F → Registry F → List (Alert F)
  all_raised t [] = []
  all_raised t (d ∷ dd) = raised t d ++ all_raised t dd

  on_tick_loop-eq :
      (t : Tick F) (dd : Registry F) (all : List (Alert F))
      → on_tick_loop t dd all ≡ (map (observe t) dd, all ++ all_raised t dd)
  unfolding on_tick_loop
  on_tick_loop-eq t [] all = ap (λ l. ([], l)) (sym (append-nil all))
  on_tick_loop-eq t (d ∷ dd) all =
      ap (λ r. (observe t d ∷ r.0, r.1)) (on_tick_loop-eq t dd (all ++ raised t d))
      ∙ ap (λ l. (observe t d ∷ map (observe t) dd, l))
          (append_assoc all (raised t d) (all_raised t dd))

  -- On a tick every detector makes its own step, and the alerts are theirs, in the registry's order.
  pub on_tick-eq :
      (t : Tick F) (dd : Registry F) → on_tick t dd ≡ (map (observe t) dd, all_raised t dd)
  unfolding on_tick
  on_tick-eq t dd = on_tick_loop-eq t dd []

  -- The calls of OnTick for the ticks in order.
  unfoldable pub run : List (Tick F) → Registry F → Registry F × List (Alert F)
  run [] dd = (dd, [])
  run (t ∷ ts) dd =
      let (dd', alerts) = on_tick t dd in let (dd'', later) = run ts dd' in (dd'', alerts ++ later)

  -- one detector alone, on the ticks in order
  abbrev pub run_own : List (Tick F) → Detector F → Detector F
  run_own [] d = d
  run_own (t ∷ ts) d = run_own ts (observe t d)

  map-run_own_nil : (dd : Registry F) → map (run_own []) dd ≡ dd
  map-run_own_nil [] = refl
  map-run_own_nil (d ∷ dd) = ap (λ l. d ∷ l) (map-run_own_nil dd)

  map-run_own_cons :
      (t : Tick F) (ts : List (Tick F)) (dd : Registry F)
      → map (run_own ts) (map (observe t) dd) ≡ map (run_own (t ∷ ts)) dd
  map-run_own_cons t ts [] = refl
  map-run_own_cons t ts (d ∷ dd) = ap (λ l. run_own ts (observe t d) ∷ l) (map-run_own_cons t ts dd)

  -- The alerts tick by tick, each detector being where the earlier ticks alone have left it.
  abbrev pub alerts_over : (past : List (Tick F)) → List (Tick F) → Registry F → List (Alert F)
  alerts_over past [] dd = []
  alerts_over past (t ∷ ts) dd =
      all_raised t (map (run_own past) dd) ++ alerts_over (past ++ t ∷ []) ts dd

  alerts_over-cons :
      (t : Tick F) (past ts : List (Tick F)) (dd : Registry F)
      → alerts_over past ts (map (observe t) dd) ≡ alerts_over (t ∷ past) ts dd
  alerts_over-cons t past [] dd = refl
  alerts_over-cons t past (u ∷ ts) dd =
      ap₂ ◌++◌ (ap (all_raised u) (map-run_own_cons t past dd))
        (alerts_over-cons t (past ++ u ∷ []) ts dd)

  -- Over any ticks every detector of a registry ends in the state in which it would end alone,
  -- and the alerts are, tick by tick in the registry's order, those that the detectors alone
  -- would raise.
  pub run-eq :
      (ts : List (Tick F)) (dd : Registry F)
      → ((run ts dd).0 ≡ map (run_own ts) dd) × ((run ts dd).1 ≡ alerts_over [] ts dd)
  unfolding run
  run-eq [] dd = (sym (map-run_own_nil dd), refl)
  run-eq (t ∷ ts) dd =
      let (states, alerts) = run-eq ts (map (observe t) dd) in
      (
        ap (λ r. (run ts r.0).0) (on_tick-eq t dd) ∙ states ∙ map-run_own_cons t ts dd,
        ap (λ r. r.1 ++ (run ts r.0).1) (on_tick-eq t dd)
            ∙ ap₂ ◌++◌ (ap (all_raised t) (sym (map-run_own_nil dd)))
                (alerts ∙ alerts_over-cons t [] ts dd),
      )

  pub run-append :
      (ts us : List (Tick F)) (dd : Registry F)
      → ((run (ts ++ us) dd).0 ≡ (run us (run ts dd).0).0)
        × ((run (ts ++ us) dd).1 ≡ (run ts dd).1 ++ (run us (run ts dd).0).1)
  unfolding run
  run-append [] us dd = (refl, refl)
  run-append (t ∷ ts) us dd =
      let next = on_tick t dd in
      let (states, alerts) = run-append ts us next.0 in
      (
        states,
        ap (λ l. next.1 ++ l) alerts
            ∙ sym (append_assoc next.1 (run ts next.0).1 (run us (run ts next.0).0).1),
      )
