-- ===== src/Detectors/Correlation/Pairs.antt =====
-- internal/detectors/correlation.go: the pairs of the detector, and each pair's machine alone.
use crypto_divergence_engine.Prelude.{
  ◌≤◌, ◌≡◌, refl, sym, ap₂, ◌∙◌, false, none, some, List, [], ◌∷◌, ◌++◌, arith, All, if◌then◌else◌,
  Option-cases, inl, inr, append-nil,
}
use mathlib.Core.Path.{subst}
use crypto_divergence_engine.Go.Text.{Str, str_eq, str_eq_refl}
use crypto_divergence_engine.Go.Map.{Map, lookup, insert, lookup-insert, lookup-insert_self}
use crypto_divergence_engine.Go.Time.{max_duration}
use crypto_divergence_engine.Go.Float.{Float}
use crypto_divergence_engine.Tick.{Tick}
use crypto_divergence_engine.Alert.{Alert}
use crypto_divergence_engine.Detectors.PerSymbol.{Emits, quiet, fires, IsThrottled, run_one}
use crypto_divergence_engine.Detectors.PerSymbol.Isolation.{alerts_of, alerts_of-append}
use crypto_divergence_engine.Detectors.PerSymbol.Spacing.{IsSpaced, run_one-IsSpaced}
use crypto_divergence_engine.Detectors.Correlation.{
  CorrState, SymbolPair, CorrelationBreakdownDetector, step, machine, key_of, pairs_loop,
}
use crypto_divergence_engine.Detectors.Correlation.Throttle.{machine-IsThrottled}

-- No pair of the list has the key.
abbrev pub HasNo : Str → List SymbolPair → Type 0
HasNo k = All (λ q. str_eq (key_of q) k ≡ false)

-- All the durations of the configuration fit an int64.
pub record HasDurations {F : Type 0} (d : CorrelationBreakdownDetector F) : Type 0 where
  pub history : d.min_history ≤ max_duration
  pub pause : d.cooldown ≤ max_duration
  pub interval : d.sample_interval ≤ max_duration

module _ {F : Type 0} ⦃fl : Float F⦄ (d : CorrelationBreakdownDetector F) where
  -- The calls of OnTick for the ticks in order: only the states of the pairs change.
  unfoldable pub run : List (Tick F) → Map (CorrState F) → Map (CorrState F) × List (Alert F)
  run [] states = (states, [])
  run (t ∷ ts) states =
      let (states', alerts) = pairs_loop d t d.pairs states in
      let (states'', later) = run ts states' in (states'', alerts ++ later)

module _ {F : Type 0} ⦃fl : Float F⦄ (d : CorrelationBreakdownDetector F)
    (ok : HasDurations d) where
  throttled : (pair : SymbolPair) → IsThrottled (machine d pair)
  throttled pair = machine-IsThrottled d pair ok.history ok.pause ok.interval

  step_alerts :
      (k : Str) (pair : SymbolPair) (t : Tick F) (s : CorrState F)
      → Emits (machine d pair) t s
      → alerts_of k (step d pair t s).1
        ≡ (if str_eq (key_of pair) k then (step d pair t s).1 else [])
  step_alerts k pair t s (quiet e l) = rw e (ground arith)
  step_alerts k pair t s (fires a e same at l gap) = rw (e, same) (ground arith)

  own_alerts :
      (pair : SymbolPair) (t : Tick F) (s : CorrState F)
      → alerts_of (key_of pair) (step d pair t s).1 ≡ (step d pair t s).1
  own_alerts pair t s =
      step_alerts (key_of pair) pair t s (throttled pair t s) ∙ rw (str_eq_refl (key_of pair))

  other_alerts :
      (k : Str) (p : SymbolPair) (t : Tick F) (s : CorrState F)
      → str_eq (key_of p) k ≡ false
      → alerts_of k (step d p t s).1 ≡ []
  other_alerts k p t s h = step_alerts k p t s (throttled p t s) ∙ rw h

  -- The loop at its first pair.
  loop_missing :
      (t : Tick F) (p : SymbolPair) (ps : List SymbolPair) (states : Map (CorrState F))
      → lookup (key_of p) states ≡ none
      → pairs_loop d t (p ∷ ps) states ≡ pairs_loop d t ps states
  unfolding pairs_loop
  loop_missing t p ps states e = rw (e, pairs_loop)

  loop_found :
      (t : Tick F) (p : SymbolPair) (ps : List SymbolPair) (states : Map (CorrState F))
      (s : CorrState F)
      → lookup (key_of p) states ≡ some s
      → let rest = pairs_loop d t ps (insert (key_of p) (step d p t s).0 states) in
        pairs_loop d t (p ∷ ps) states ≡ (rest.0, (step d p t s).1 ++ rest.1)
  unfolding pairs_loop
  loop_found t p ps states s e = rw (e, pairs_loop)

  -- The pairs with other keys leave the state under a key alone, and raise no alert for it.
  others :
      (k : Str) (t : Tick F) (ps : List SymbolPair) (states : Map (CorrState F))
      → HasNo k ps
      → (lookup k (pairs_loop d t ps states).0 ≡ lookup k states)
        × (alerts_of k (pairs_loop d t ps states).1 ≡ [])
  others k t [] states h = unfold pairs_loop in (refl, refl)
  others k t (p ∷ ps) states h = elim (Option-cases (lookup (key_of p) states)) [
    | inl e ↦ rw (loop_missing t p ps states e) (others k t ps states h.1)
    | inr (s, e) ↦
        let states' = insert (key_of p) (step d p t s).0 states in
        let (state, alerts) = others k t ps states' h.1 in
        rw (loop_found t p ps states s e) (
          state ∙ rw (lookup-insert (key_of p) k (step d p t s).0 states, h.0),
          alerts_of-append k (step d p t s).1 (pairs_loop d t ps states').1
              ∙ ap₂ ◌++◌ (other_alerts k p t s h.0) alerts,
        )
  ]

  -- What one tick does to a pair that stands once in the list.
  pair_tick :
      (pair : SymbolPair) (before after : List SymbolPair) (t : Tick F) (states : Map (CorrState F))
      (s : CorrState F)
      → HasNo (key_of pair) before
      → HasNo (key_of pair) after
      → lookup (key_of pair) states ≡ some s
      → (lookup (key_of pair) (pairs_loop d t (before ++ pair ∷ after) states).0
          ≡ some (step d pair t s).0)
        × (alerts_of (key_of pair) (pairs_loop d t (before ++ pair ∷ after) states).1
            ≡ (step d pair t s).1)
  pair_tick pair [] after t states s hb ha e =
      let k = key_of pair in
      let states' = insert k (step d pair t s).0 states in
      let (state, alerts) = others k t after states' ha in
      rw (loop_found t pair after states s e) (
        state ∙ lookup-insert_self k (step d pair t s).0 states,
        alerts_of-append k (step d pair t s).1 (pairs_loop d t after states').1
            ∙ ap₂ ◌++◌ (own_alerts pair t s) alerts
            ∙ append-nil (step d pair t s).1,
      )
  pair_tick pair (p ∷ before) after t states s hb ha e =
      let k = key_of pair in
      elim (Option-cases (lookup (key_of p) states)) [
        | inl missing ↦
            rw (loop_missing t p (before ++ pair ∷ after) states missing)
              (pair_tick pair before after t states s hb.1 ha e)
        | inr (u, found) ↦
            let states' = insert (key_of p) (step d p t u).0 states in
            let kept : lookup k states' ≡ some s =
              lookup-insert (key_of p) k (step d p t u).0 states ∙ rw hb.0 e in
            let (state, alerts) = pair_tick pair before after t states' s hb.1 ha kept in
            rw (loop_found t p (before ++ pair ∷ after) states u found) (
              state,
              alerts_of-append k (step d p t u).1
                    (pairs_loop d t (before ++ pair ∷ after) states').1
                  ∙ ap₂ ◌++◌ (other_alerts k p t u hb.0) alerts,
            )
      ]

  -- With durations that fit an int64, over any ticks, the alerts and the state of a pair that
  -- stands once in the list of pairs and has a state are those of the pair's own machine on all
  -- the ticks: pairs that share a symbol with it do not interfere.
  pub pairs_independent :
      (pair : SymbolPair) (before after : List SymbolPair) (ts : List (Tick F))
      (states : Map (CorrState F)) (s : CorrState F)
      → d.pairs ≡ before ++ pair ∷ after
      → HasNo (key_of pair) before
      → HasNo (key_of pair) after
      → lookup (key_of pair) states ≡ some s
      → (lookup (key_of pair) (run d ts states).0 ≡ some (run_one (machine d pair) ts s).0)
        × (alerts_of (key_of pair) (run d ts states).1 ≡ (run_one (machine d pair) ts s).1)
  unfolding run run_one
  pairs_independent pair before after [] states s split hb ha e = (e, refl)
  pairs_independent pair before after (t ∷ ts) states s split hb ha e =
      let k = key_of pair in
      let now = pairs_loop d t d.pairs states in
      let (state, alerts) =
        subst
          (λ ps.
            (lookup k (pairs_loop d t ps states).0 ≡ some (step d pair t s).0)
            × (alerts_of k (pairs_loop d t ps states).1 ≡ (step d pair t s).1))
          (sym split) (pair_tick pair before after t states s hb ha e) in
      let (state', later) =
        pairs_independent pair before after ts now.0 (step d pair t s).0 split hb ha state in
      (state', alerts_of-append k now.1 (run d ts now.0).1 ∙ ap₂ ◌++◌ alerts later)

  -- With durations that fit an int64, the alerts of a pair that stands once in the list of pairs
  -- and has a state are at least the cooldown apart.
  pub run-IsSpaced :
      (pair : SymbolPair) (before after : List SymbolPair) (ts : List (Tick F))
      (states : Map (CorrState F)) (s : CorrState F)
      → d.pairs ≡ before ++ pair ∷ after
      → HasNo (key_of pair) before
      → HasNo (key_of pair) after
      → lookup (key_of pair) states ≡ some s
      → IsSpaced d.cooldown s.last_alert (alerts_of (key_of pair) (run d ts states).1)
  run-IsSpaced pair before after ts states s split hb ha e =
      rw (pairs_independent pair before after ts states s split hb ha e).1
        (run_one-IsSpaced (machine d pair) (throttled pair) ts s)
