-- ===== src/Backtest.antt =====
-- backtest/: the ledger and the bar-by-bar replay of both cycles.
pub mod Dict
pub mod Ledger
pub mod Replay
pub mod Executor
pub mod Fills
pub mod Engine
pub mod Metrics
