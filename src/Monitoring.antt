-- ===== src/Monitoring.antt =====
-- monitoring/live_performance.py: what the broker's deals and the closed records say together. Deals
-- carry the server's time under the name of UTC, which an offset corrects.
pub mod DealTime
pub mod Trades
pub mod DailyPnl
use mt5_mcp_trading_framewor.Common.{ℕ, ◌||◌, ◌==◌, List, [], ◌∷◌, keep, Bool}
use mt5_mcp_trading_framewor.Domain.{Deal}

module _ {F : Type 0} where
  -- `by_position.get(ticket, [])`
  abbrev pub deals_of : ℕ → List (Deal F) → List (Deal F)
  deals_of ticket deals = keep (λ d. d.position_id == ticket) deals

  -- `entry in (0, 2)`
  abbrev pub ins_of : List (Deal F) → List (Deal F)
  ins_of matched = keep (λ d. d.entry == 0 || d.entry == 2) matched

  -- `entry in (1, 2)`
  abbrev pub outs_of : List (Deal F) → List (Deal F)
  outs_of matched = keep (λ d. d.entry == 1 || d.entry == 2) matched
