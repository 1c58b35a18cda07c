-- ===== src/Dashboard.antt =====
-- cmd/dashboard: the hub of the browser clients, the stream reader and the paper-trading sessions.
pub mod Hub
pub mod Live
pub mod Sessions
pub mod Reader
pub mod Indicators
pub mod Market
pub mod Bars
pub mod Backtest
pub mod Signals
pub mod Custom
pub mod Ticks
