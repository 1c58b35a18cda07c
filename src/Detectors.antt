-- ===== src/Detectors.antt =====
-- internal/detectors: the three detectors and the registry that runs them.
pub mod PerSymbol
pub mod Ticks
pub mod VolumeSpike
pub mod OrderFlow
pub mod Correlation
pub mod Registry
