-- ===== src/Detectors/VolumeSpike/Refine.antt =====
-- internal/detectors/volumespike.go: the streaming detector against its specification.
use mathlib.Core.List.{map-append}
use crypto_divergence_engine.Prelude.{
  ◌≡◌, refl, sym, ap, ◌∙◌, none, some, List, [], ◌∷◌, ◌++◌, map, arith, if◌then◌else◌, Option-cases,
  inl, inr,
}
use crypto_divergence_engine.Go.Text.{Str}
use crypto_divergence_engine.Go.Time.{is_zero}
use crypto_divergence_engine.Go.Float.{Float}
use crypto_divergence_engine.State.RingBuffer.{sum_since}
use crypto_divergence_engine.State.RingBuffer.History.{
  Holds, push-Holds, sum_since-Holds, new_ring_buffer-Holds,
}
use crypto_divergence_engine.State.ShardedMap.{empty, found_or}
use crypto_divergence_engine.State.ShardedMap.Laws.{empty-IsValid, find-empty}
use crypto_divergence_engine.Tick.{Tick}
use crypto_divergence_engine.Detectors.PerSymbol.{run, run_one}
use crypto_divergence_engine.Detectors.PerSymbol.Isolation.{alerts_of, ticks_of, run-eq-run_one}
use crypto_divergence_engine.Detectors.VolumeSpike.{
  VsState, VolumeSpikeDetector, machine, create, short_capacity, long_capacity,
}
use crypto_divergence_engine.Detectors.VolumeSpike.Throttle.{observe, step-eq, machine-IsThrottled}
use crypto_divergence_engine.Detectors.VolumeSpike.Spec.{verdict, judge, alerts_from}
use crypto_divergence_engine.Detectors.Ticks.{entry_of, first_time, first_time-snoc}

module _ {F : Type 0} ⦃fl : Float F⦄ where
  -- The state of a symbol whose ticks so far are `past`.
  pub record Represents (s : VsState F) (past : List (Tick F)) : Type 0 where
    pub short : Holds short_capacity s.short (map entry_of past)
    pub long : Holds long_capacity s.long (map entry_of past)
    pub first : s.first_seen ≡ first_time past

  create-Represents : Represents create []
  unfolding create
  create-Represents = record {
    short = new_ring_buffer-Holds short_capacity (omega arith);
    long = new_ring_buffer-Holds long_capacity (omega arith);
    first = refl;
  }

  observe-Represents :
      (t : Tick F) (s : VsState F) (past : List (Tick F))
      → Represents s past
      → Represents (observe t s) (past ++ t ∷ [])
  observe-Represents t s past h = record {
    short =
        rw (map-append entry_of past (t ∷ []))
          (push-Holds short_capacity s.short (map entry_of past) t.timestamp t.volume h.short);
    long =
        rw (map-append entry_of past (t ∷ []))
          (push-Holds long_capacity s.long (map entry_of past) t.timestamp t.volume h.long);
    first = ap (λ f. if is_zero f then t.timestamp else f) h.first ∙ sym (first_time-snoc past t);
  }

  -- The code's verdict is that of the specification.
  verdict-eq-judge :
      (d : VolumeSpikeDetector F) (t : Tick F) (s0 : VsState F) (past : List (Tick F))
      → Represents s0 past
      → let s = observe t s0 in
        verdict d t s.first_seen s.last_alert
          (sum_since s.short t.timestamp d.short_window)
          (sum_since s.long t.timestamp d.long_window)
        ≡ judge d past s0.last_alert t
  unfolding judge
  verdict-eq-judge d t s0 past h =
      let s = observe t s0 in
      let seen = map entry_of (past ++ t ∷ []) in
      let after : Represents s (past ++ t ∷ []) = observe-Represents t s0 past h in
      rw (
        sum_since-Holds short_capacity s.short seen t.timestamp d.short_window after.short,
        sum_since-Holds long_capacity s.long seen t.timestamp d.long_window after.long,
        after.first,
      )

  run_one-eq-alerts_from :
      (d : VolumeSpikeDetector F) (ts : List (Tick F)) (s : VsState F) (past : List (Tick F))
      → Represents s past
      → (run_one (machine d) ts s).1 ≡ alerts_from d past s.last_alert ts
  unfolding run_one alerts_from
  run_one-eq-alerts_from d [] s past h = refl
  run_one-eq-alerts_from d (t ∷ ts) s past h =
      let next = observe-Represents t s past h in
      let e =
        step-eq d t s
        ∙ ap
            (λ o. elim o [
              | none ↦ (observe t s, [])
              | some a ↦ (record (observe t s) { last_alert = t.timestamp }, a ∷ [])
            ])
            (verdict-eq-judge d t s past h) in
      elim (Option-cases (judge d past s.last_alert t)) [
        | inl v ↦
            rw (e, v, alerts_from) (run_one-eq-alerts_from d ts (observe t s) (past ++ t ∷ []) next)
        | inr (a, v) ↦
            rw (e, v, alerts_from)
              (ap (λ l. a ∷ l)
                (run_one-eq-alerts_from d ts (record (observe t s) { last_alert = t.timestamp })
                  (past ++ t ∷ [])
                  (record { short = next.short; long = next.long; first = next.first })))
      ]

  -- A new volume spike detector, over any ticks of any symbols in any order, raises for each
  -- symbol the alerts that its specification gives for that symbol's ticks alone: on each tick a
  -- verdict on the whole history, from the last 5000 and the last 100000 of them.
  pub volume_spike_refines :
      (d : VolumeSpikeDetector F) (k : Str) (ts : List (Tick F))
      → alerts_of k (run (machine d) ts empty).1 ≡ alerts_from d [] 0 (ticks_of k ts)
  volume_spike_refines d k ts =
      (run-eq-run_one (machine d) (machine-IsThrottled d) (λ t. refl) k ts empty empty-IsValid).0
      ∙ ap (λ o. (run_one (machine d) (ticks_of k ts) (found_or o create)).1) (find-empty k)
      ∙ run_one-eq-alerts_from d (ticks_of k ts) create [] create-Represents
      ∙ ap (λ t. alerts_from d [] t (ticks_of k ts)) create_last
    where
      create_last : (create {F = F}).last_alert ≡ 0
      create_last = unfold create in refl
