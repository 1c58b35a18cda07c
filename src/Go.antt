-- ===== src/Go.antt =====
-- What the Go code uses of its language and standard library: strings as bytes, maps, channels, times and
-- durations, and float64 as an interface.
pub mod Text
pub mod Map
pub mod Time
pub mod Float
pub mod Channel
pub mod Checked
