-- ===== src/Features.antt =====
-- features/ema.py, atr.py, macd.py and regime.py: indicators over a sequence of bars. A window size is
-- a natural number, so `period < 1` is `period == 0`.
mod Defs
pub mod Laws
unfoldable pub use Defs.*
