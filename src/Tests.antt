-- ===== src/Tests.antt =====
-- Runs on concrete inputs, one module per part of the program. Numbers are whole here: the arithmetic
-- is that of the integers, with logarithms and roots rounded down.
mod Data
mod State
mod Detectors
mod Streams
mod Ingester
mod Dashboard
mod Backtest
mod Requests
