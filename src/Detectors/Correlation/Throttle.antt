-- ===== src/Detectors/Correlation/Throttle.antt =====
-- internal/detectors/correlation.go: when an alert may be raised for a pair.
use crypto_divergence_engine.Prelude.{
  ◌+◌, ◌≤◌, ◌≡◌, refl, ap, ◌∙◌, Option, none, some, List, [], ◌∷◌, arith, leb, not, ◌&&◌, ◌||◌,
  if◌then◌else◌, Option-cases, inl, inr,
}
use crypto_divergence_engine.Go.Time.{max_duration, is_zero, lt_duration-sub}
use crypto_divergence_engine.Go.Float.{Float, ge}
use crypto_divergence_engine.State.RingBuffer.{len, slice}
use crypto_divergence_engine.Tick.{Tick}
use crypto_divergence_engine.Alert.{Alert}
use crypto_divergence_engine.Detectors.PerSymbol.{Emits, quiet, fires, IsThrottled}
use crypto_divergence_engine.Detectors.Correlation.Pearson.{pearson}
use crypto_divergence_engine.Detectors.Correlation.{
  CorrState, SymbolPair, CorrelationBreakdownDetector, step, evaluate, alert, sample, update_price,
  machine, key_of,
}

module _ {F : Type 0} where
  -- the outcome of the loop body with that verdict
  abbrev pub outcome : Tick F → CorrState F → Option (Alert F) → CorrState F × List (Alert F)
  outcome t s none = (s, [])
  outcome t s (some a) = (record s { last_alert = t.timestamp }, a ∷ [])

module _ {F : Type 0} ⦃fl : Float F⦄ (d : CorrelationBreakdownDetector F) (pair : SymbolPair) where
  -- The state that a tick leaves to be judged, if it completes a sample.
  unfoldable pub sampled : Tick F → CorrState F → Option (CorrState F)
  sampled t s0 = elim (update_price pair t s0) [
    | none ↦ none
    | some s ↦
        let priced =
          not (fl.eq s.latest_price_a (fl.of_nat 0) || fl.eq s.latest_price_b (fl.of_nat 0)) in
        let due = leb (s.snapshot_at + d.sample_interval) t.timestamp in
        if priced && (not (is_zero s.snapshot_at) && ((s.updated_a && s.updated_b) && due))
        then some (sample t s)
        else none
  ]

  -- The alert on a sample: warm, enough samples, a correlated pair, a breakdown, and cool.
  unfoldable pub verdict : Tick F → CorrState F → Option (Alert F)
  verdict t s =
      let n = len s.returns_a in
      let baseline = pearson (slice s.returns_a n) (slice s.returns_b n) in
      let short = pearson (slice s.returns_a d.short_samples) (slice s.returns_b d.short_samples) in
      let warm = leb (s.first_seen + d.min_history) t.timestamp && leb d.min_samples n in
      let broken =
        not (fl.lt baseline d.min_baseline) && not (ge short (fl.sub baseline d.drop_threshold)) in
      if warm && (broken && leb (s.last_alert + d.cooldown) t.timestamp)
      then some (alert d pair t short baseline)
      else none

module _ {F : Type 0} ⦃fl : Float F⦄ (d : CorrelationBreakdownDetector F) (pair : SymbolPair)
    (history : d.min_history ≤ max_duration) (pause : d.cooldown ≤ max_duration) where
  pub evaluate-eq :
      (t : Tick F) (s : CorrState F) → evaluate d pair t s ≡ outcome t s (verdict d pair t s)
  unfolding evaluate verdict
  evaluate-eq t s = ground (
    arith,
    lt_duration-sub t.timestamp s.first_seen d.min_history history,
    lt_duration-sub t.timestamp s.last_alert d.cooldown pause,
  )

  pub verdict-some :
      (t : Tick F) (s : CorrState F) (a : Alert F)
      → verdict d pair t s ≡ some a
      → (a.symbol ≡ key_of pair)
        × (a.timestamp ≡ t.timestamp)
        × (s.first_seen + d.min_history ≤ t.timestamp)
        × (d.min_samples ≤ len s.returns_a)
        × (s.last_alert + d.cooldown ≤ t.timestamp)
  unfolding verdict
  verdict-some t s a h = ground arith

  -- A tick that completes a sample is judged on it.
  pub step_sampled :
      (t : Tick F) (s0 s : CorrState F)
      → d.sample_interval ≤ max_duration
      → sampled d pair t s0 ≡ some s
      → (step d pair t s0 ≡ evaluate d pair t s) × (s.last_alert ≡ s0.last_alert)
  unfolding step sampled update_price sample
  step_sampled t s0 s interval h =
      ground (arith, lt_duration-sub t.timestamp s0.snapshot_at d.sample_interval interval)

  -- Any other tick raises no alert.
  pub step_not_sampled :
      (t : Tick F) (s0 : CorrState F)
      → d.sample_interval ≤ max_duration
      → sampled d pair t s0 ≡ none
      → ((step d pair t s0).1 ≡ []) × ((step d pair t s0).0.last_alert ≡ s0.last_alert)
  unfolding step sampled update_price
  step_not_sampled t s0 interval h =
      ground (arith, lt_duration-sub t.timestamp s0.snapshot_at d.sample_interval interval)

  judged :
      (t : Tick F) (s0 s : CorrState F) (o : Option (Alert F))
      → verdict d pair t s ≡ o
      → step d pair t s0 ≡ outcome t s o
      → s.last_alert ≡ s0.last_alert
      → Emits (machine d pair) t s0
  judged t s0 s none v e last = quiet (ap (λ p. p.1) e) (ap (λ p. p.0.last_alert) e ∙ last)
  judged t s0 s (some a) v e last =
      let (symbol, at, warm, enough, cool) = verdict-some t s a v in
      fires a (ap (λ p. p.1) e) symbol at (ap (λ p. p.0.last_alert) e) (rw last at cool)

  pub machine-IsThrottled : d.sample_interval ≤ max_duration → IsThrottled (machine d pair)
  machine-IsThrottled interval t s0 = elim (Option-cases (sampled d pair t s0)) [
    | inl e ↦ let (none_raised, last) = step_not_sampled t s0 interval e in quiet none_raised last
    | inr (s, e) ↦
        let (judged_on, last) = step_sampled t s0 s interval e in
        judged t s0 s (verdict d pair t s) refl (judged_on ∙ evaluate-eq t s) last
  ]
