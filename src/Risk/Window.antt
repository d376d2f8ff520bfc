-- ===== src/Risk/Window.antt =====
-- Proofs about risk/daily_loss_guard.py: the window of the daily loss limit.
use mt5_mcp_trading_framewor.Common.{ℕ, ◌+◌, ◌*◌, ◌≤◌, ◌<◌, ◌%◌, ◌≡◌, arith}
use mt5_mcp_trading_framewor.Common.Outcome.{ok}
use mt5_mcp_trading_framewor.Domain.{Time}
use mt5_mcp_trading_framewor.Risk.DailyLoss.{aware, hour, day, daily_reset_boundary}

-- The boundary of an instant, if there is one, is at the reset hour, not after the instant and less
-- than a day before it.
pub daily_reset_boundary_window :
    (now : Time) (h : ℕ) {b : Time}
    → daily_reset_boundary (aware now) h ≡ ok b
    → (b ≤ now) × (now < b + day) × (b % day ≡ h * hour)
unfolding daily_reset_boundary
daily_reset_boundary_window now h e = ground arith

-- Every instant of a window, from a boundary to less than a day after it, has that boundary.
pub daily_reset_boundary_shared :
    (now later : Time) (h : ℕ) {b : Time}
    → daily_reset_boundary (aware now) h ≡ ok b
    → b ≤ later
    → later < b + day
    → daily_reset_boundary (aware later) h ≡ ok b
unfolding daily_reset_boundary
daily_reset_boundary_shared now later h e lo hi = ground arith
