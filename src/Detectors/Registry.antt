-- ===== src/Detectors/Registry.antt =====
-- internal/detectors/detector.go and registry.go: the registry runs every detector on every tick, in
-- order, and collects the alerts.
pub mod Run
use crypto_divergence_engine.Prelude.{List, [], ◌∷◌, ◌++◌}
use crypto_divergence_engine.Go.Float.{Float}
use crypto_divergence_engine.Tick.{Tick}
use crypto_divergence_engine.Alert.{Alert}
use crypto_divergence_engine.Detectors.VolumeSpike
use crypto_divergence_engine.Detectors.OrderFlow
use crypto_divergence_engine.Detectors.Correlation

-- A value of the interface Detector: an implementation with its present state.
pub record Detector (F : Type 0) : Type 1 where
  pub State : Type 0
  pub state : State
  pub on_tick : Tick F → State → State × List (Alert F)

abbrev pub Registry : Type 0 → Type 1
Registry F = List (Detector F)

module _ {F : Type 0} where
  -- The detector after OnTick, and what OnTick returns.
  abbrev pub observe : Tick F → Detector F → Detector F
  observe t d = record d { state = (d.on_tick t d.state).0 }

  abbrev pub raised : Tick F → Detector F → List (Alert F)
  raised t d = (d.on_tick t d.state).1

  -- the loop of Registry.OnTick, with `all` the alerts so far
  unfoldable pub on_tick_loop : Tick F → Registry F → List (Alert F) → Registry F × List (Alert F)
  on_tick_loop t [] all = ([], all)
  on_tick_loop t (d ∷ dd) all =
      let (dd', all') = on_tick_loop t dd (all ++ raised t d) in (observe t d ∷ dd', all')

  unfoldable pub on_tick : Tick F → Registry F → Registry F × List (Alert F)
  on_tick t dd = on_tick_loop t dd []

module _ {F : Type 0} ⦃fl : Float F⦄ where
  abbrev pub volume_spike : Detector F
  volume_spike = record {
    State = VolumeSpike.VolumeSpikeDetector F;
    state = VolumeSpike.new_volume_spike_detector;
    on_tick = VolumeSpike.on_tick;
  }

  abbrev pub order_flow : Detector F
  order_flow = record {
    State = OrderFlow.OrderFlowImbalanceDetector F;
    state = OrderFlow.new_order_flow_imbalance_detector;
    on_tick = OrderFlow.on_tick;
  }

  abbrev pub correlation : Detector F
  correlation = record {
    State = Correlation.CorrelationBreakdownDetector F;
    state = Correlation.new_correlation_breakdown_detector;
    on_tick = Correlation.on_tick;
  }

  -- the registry that cmd/detector makes
  abbrev pub new_registry : Registry F
  new_registry = volume_spike ∷ order_flow ∷ correlation ∷ []
