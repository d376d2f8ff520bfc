-- ===== src/Domain/Reasons.antt =====
-- The messages that the decisions carry: one constructor for each format string of the source, with
-- the values that it formats.
use mt5_mcp_trading_framewor.Common.{ℕ, Option, Text}
use mt5_mcp_trading_framewor.Common.Outcome.{Error}
use mt5_mcp_trading_framewor.Domain.Market.{Side}

pub data Reason (F : Type 0) : Type 0 where
  -- risk/daily_loss_guard.py
  no_daily_loss_limit : Reason F
  breaches_daily_loss within_daily_loss : F → F → Reason F
  -- the loop's message for a decision that could not be computed
  loss_not_computed : Error → Reason F
  -- risk/portfolio_guards.py
  exposure : (open_lots pending_lots proposed projected : F) → Reason F
  exceeds_max_open_lots exceeds_budget_max_lots : F → F → Reason F
  within_caps : Reason F
  -- risk/symbol_guards.py
  existing_order : (ticket : ℕ) (at tolerance : F) (side : Side) (price tol_ticks : F) → Reason F
  no_existing_order : (side : Side) (tolerance price : F) → Reason F
  positions_at_limit positions_below_limit : ℕ → ℕ → Reason F
  -- strategy/runner.py
  macd_signal : F → ℕ → ℕ → Reason F
  -- sizing/money.py
  mode_fixed : F → Reason F
  mode_atr_scale : (base ref step raw lot lo hi : F) → Reason F
  insufficient_inputs : (rp : F) (sd ppv pp : Option F) (lot : F) → Reason F
  mode_risk_percent : (balance rp risk sd ppv raw lot lo hi : F) → Reason F
  mode_not_recognized : Text → F → Reason F
  lots_hint : (max_open now_open now_pending : F) → Reason F

-- the `blocking_guard` names
pub data GuardName : Type 0 where
  daily_loss_limit max_open_lots_guard budget_max_lots_guard : GuardName
  duplicate_order position_limit daily_loss_computation_error : GuardName
