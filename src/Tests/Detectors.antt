-- ===== src/Tests/Detectors.antt =====
-- internal/detectors on the ticks of the tests.
use crypto_divergence_engine.Prelude.{
  ◌≡◌, ◌≤◌, refl, some, [], ◌∷◌, ◌++◌, map, arith, length, take_last,
}
use crypto_divergence_engine.Prelude.Int.{ℤ, ◌+ℤ◌, ◌*ℤ◌}
use crypto_divergence_engine.Go.Text.{Str, bytes, str_eq}
use crypto_divergence_engine.Go.Map.{lookup, insert}
use crypto_divergence_engine.Go.Time.{max_duration}
use crypto_divergence_engine.State.RingBuffer.{len, slice}
use crypto_divergence_engine.State.ShardedMap.{empty}
use crypto_divergence_engine.State.ShardedMap.Laws.{IsValid, empty-IsValid}
use crypto_divergence_engine.Detectors.PerSymbol
use crypto_divergence_engine.Detectors.PerSymbol.{run_one}
use crypto_divergence_engine.Detectors.PerSymbol.Isolation.{
  ticks_of, alerts_of, state_of, run-eq-run_one,
}
use crypto_divergence_engine.Detectors.PerSymbol.Spacing.{IsSpaced}
use crypto_divergence_engine.Detectors.VolumeSpike
use crypto_divergence_engine.Detectors.VolumeSpike.{
  VolumeSpikeDetector, new_volume_spike_detector, alert_cooldown,
}
use crypto_divergence_engine.Detectors.VolumeSpike.Spec as VolumeSpikeSpec
use crypto_divergence_engine.Detectors.VolumeSpike.Throttle as VolumeSpikeThrottle
use crypto_divergence_engine.Detectors.VolumeSpike.Refine.{volume_spike_refines}
use crypto_divergence_engine.Detectors.OrderFlow
use crypto_divergence_engine.Detectors.OrderFlow.{
  OrderFlowImbalanceDetector, new_order_flow_imbalance_detector,
}
use crypto_divergence_engine.Detectors.OrderFlow.Spec as OrderFlowSpec
use crypto_divergence_engine.Detectors.OrderFlow.Refine.{order_flow_refines}
use crypto_divergence_engine.Detectors.Correlation
use crypto_divergence_engine.Detectors.Correlation.{
  SymbolPair, CorrState, CorrelationBreakdownDetector, new_correlation_breakdown_detector, key_of,
  created,
}
use crypto_divergence_engine.Detectors.Correlation.Pairs
use crypto_divergence_engine.Detectors.Correlation.Pairs.{
  HasNo, HasDurations, pairs_independent, run-IsSpaced,
}
use crypto_divergence_engine.Detectors.Correlation.Aligned.{times, slices_together}
use crypto_divergence_engine.Detectors.Registry.{Registry, new_registry}
use crypto_divergence_engine.Detectors.Registry.Run
use crypto_divergence_engine.Detectors.Registry.Run.{run_own, alerts_over, run-eq}
use crypto_divergence_engine.Go.Float.{seconds}
use crypto_divergence_engine.Tests.Data.{whole_numbers, ticks}

abbrev btc : Str
btc = bytes "BTC-USDT"

abbrev volume_spike : VolumeSpikeDetector ℤ
volume_spike = new_volume_spike_detector

volume_spike_refines_example :
    alerts_of btc (PerSymbol.run (VolumeSpike.machine volume_spike) ticks empty).1
    ≡ VolumeSpikeSpec.alerts_from volume_spike [] 0 (ticks_of btc ticks)
volume_spike_refines_example = volume_spike_refines volume_spike btc ticks

-- The burst raises one alert.
burst : length (VolumeSpikeSpec.alerts_from volume_spike [] 0 (ticks_of btc ticks)) ≡ 1
unfolding VolumeSpikeSpec.alerts_from VolumeSpikeSpec.judge VolumeSpikeSpec.verdict
    new_volume_spike_detector seconds str_eq ◌+ℤ◌ ◌*ℤ◌
burst = refl

abbrev order_flow : OrderFlowImbalanceDetector ℤ
order_flow = new_order_flow_imbalance_detector

short_history : order_flow.min_history ≤ max_duration
unfolding new_order_flow_imbalance_detector
short_history = omega arith

short_pause : order_flow.cooldown ≤ max_duration
unfolding new_order_flow_imbalance_detector
short_pause = omega arith

order_flow_refines_example :
    alerts_of btc (PerSymbol.run (OrderFlow.machine order_flow) ticks empty).1
    ≡ OrderFlowSpec.alerts_from order_flow [] 0 (ticks_of btc ticks)
order_flow_refines_example = order_flow_refines order_flow short_history short_pause btc ticks

run-eq-run_one_example :
    let m = VolumeSpike.machine volume_spike in
    let (symbols, alerts) = PerSymbol.run m ticks empty in
    (alerts_of btc alerts ≡ (run_one m (ticks_of btc ticks) (state_of m empty btc)).1)
    × (state_of m symbols btc ≡ (run_one m (ticks_of btc ticks) (state_of m empty btc)).0)
    × IsValid symbols
run-eq-run_one_example =
    run-eq-run_one (VolumeSpike.machine volume_spike)
      (VolumeSpikeThrottle.machine-IsThrottled volume_spike) (λ t. refl) btc ticks empty
      empty-IsValid

abbrev correlation : CorrelationBreakdownDetector ℤ
correlation = new_correlation_breakdown_detector

correlation-HasDurations : HasDurations correlation
unfolding new_correlation_breakdown_detector
correlation-HasDurations = record {
  history = omega arith;
  pause = omega arith;
  interval = omega arith;
}

-- the first of the two pairs, and the other, which shares its first symbol
abbrev btc_eth : SymbolPair
btc_eth = record { a = btc; b = bytes "ETH-USDT" }

abbrev btc_sol : SymbolPair
btc_sol = record { a = btc; b = bytes "SOL-USDT" }

two_pairs : correlation.pairs ≡ [] ++ btc_eth ∷ (btc_sol ∷ [])
unfolding new_correlation_breakdown_detector
two_pairs = refl

other_key : HasNo (key_of btc_eth) (btc_sol ∷ [])
unfolding str_eq
other_key = (refl, tt)

first_state : lookup (key_of btc_eth) correlation.pair_states ≡ some created
unfolding new_correlation_breakdown_detector Correlation.new_states lookup insert str_eq
first_state = refl

pairs_independent_example :
    let m = Correlation.machine correlation btc_eth in
    let (states, alerts) = Pairs.run correlation ticks correlation.pair_states in
    (lookup (key_of btc_eth) states ≡ some (run_one m ticks created).0)
    × (alerts_of (key_of btc_eth) alerts ≡ (run_one m ticks created).1)
pairs_independent_example =
    pairs_independent correlation correlation-HasDurations btc_eth [] (btc_sol ∷ []) ticks
      correlation.pair_states created two_pairs tt other_key first_state

run-IsSpaced_example :
    IsSpaced correlation.cooldown
      (created {F = ℤ}).last_alert
      (alerts_of (key_of btc_eth) (Pairs.run correlation ticks correlation.pair_states).1)
run-IsSpaced_example =
    run-IsSpaced correlation correlation-HasDurations btc_eth [] (btc_sol ∷ []) ticks
      correlation.pair_states created two_pairs tt other_key first_state

slices_together_example :
    let s = (run_one (Correlation.machine correlation btc_eth) ticks created).0 in
    (take_last 720 (times s.returns_a) ≡ take_last 720 (times s.returns_b))
    × (length (slice s.returns_a 720) ≡ length (slice s.returns_b 720))
    × (len s.returns_a ≡ len s.returns_b)
slices_together_example = slices_together correlation btc_eth correlation-HasDurations ticks 720

abbrev registry : Registry ℤ
registry = new_registry

run-eq_example :
    ((Run.run ticks registry).0 ≡ map (run_own ticks) registry)
    × ((Run.run ticks registry).1 ≡ alerts_over [] ticks registry)
run-eq_example = run-eq ticks registry
