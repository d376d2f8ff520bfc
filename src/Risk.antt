-- ===== src/Risk.antt =====
-- risk/: guards on a proposal, each of which returns a decision with its reasons, and their
-- combination.
mod Defs
mod DailyLoss
pub mod Laws
pub mod Window
unfoldable pub use Defs.*
unfoldable pub use DailyLoss.*
