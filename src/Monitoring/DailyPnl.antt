-- ===== src/Monitoring/DailyPnl.antt =====
-- The profit and loss since the daily reset, and the decision of the daily loss limit on it.
pub mod Laws
use mt5_mcp_trading_framewor.Common.{ℕ, Bool, List, [], ◌∷◌, map, if◌then◌else◌, leb}
use mt5_mcp_trading_framewor.Common.Int.{ℤ}
use mt5_mcp_trading_framewor.Common.Clock.{minus_delta}
use mt5_mcp_trading_framewor.Common.Outcome.{Outcome, ok, raised, value_error, ◌>>=◌}
use mt5_mcp_trading_framewor.Float.{Float}
use mt5_mcp_trading_framewor.Domain.{Time, Deal, RiskDecision}
use mt5_mcp_trading_framewor.Risk.{
  Datetime, naive, aware, DailyLossLimitConfig, check_daily_loss_limit, daily_reset_boundary,
}
use mt5_mcp_trading_framewor.State.Reconcile.{mem}
use mt5_mcp_trading_framewor.Monitoring.Trades.{net}

module _ {F : Type 0} where
  -- the deals that the generator's two conditions let through
  unfoldable pub counted : List (Deal F) → Time → List ℕ → ℤ → Outcome (List (Deal F))
  counted [] since trusted offset = ok []
  counted (d ∷ ds) since trusted offset =
      let rest = counted ds since trusted offset in
      if mem d.position_id trusted
      then (minus_delta d.time offset >>= λ corrected.
          rest >>= λ later. ok (if leb since corrected then d ∷ later else later))
      else rest

module _ {F : Type 0} ⦃f : Float F⦄ where
  unfoldable pub realized_pnl_since : List (Deal F) → Datetime → List ℕ → ℤ → Outcome F
  unfolding counted
  realized_pnl_since deals (naive t) trusted offset = raised value_error
  realized_pnl_since deals (aware since) trusted offset =
      counted deals since trusted offset >>= λ ds. ok (f.sum (map (λ d. net d) ds))

  unfoldable pub compute_daily_loss_decision :
      List (Deal F) → List ℕ → Datetime → DailyLossLimitConfig F → ℤ → Outcome (RiskDecision F)
  unfolding realized_pnl_since check_daily_loss_limit daily_reset_boundary
  compute_daily_loss_decision deals trusted now config offset =
      daily_reset_boundary now config.reset_hour_utc >>= λ boundary.
      realized_pnl_since deals (aware boundary) trusted offset >>= λ pnl.
      check_daily_loss_limit pnl config
