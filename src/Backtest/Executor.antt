-- ===== src/Backtest/Executor.antt =====
-- backtest/engine.py: `BacktestOrderExecutor`.
use mt5_mcp_trading_framewor.Common.{ℕ, Bool, true, false, Option, none, some, if◌then◌else◌}
use mt5_mcp_trading_framewor.Common.Int.{pos, negsuc}
use mt5_mcp_trading_framewor.Common.Outcome.{ok, value_error}
use mt5_mcp_trading_framewor.Common.Action.{Action, ◌>>=◌, pure, lift, raise}
use mt5_mcp_trading_framewor.Float.{Float, ◌⊕◌, ◌⊖◌}
use mt5_mcp_trading_framewor.Domain.{
  Time, Side, buy, sell, MarketBar, SymbolInfo, OrderPlan, OrderType, market_order, limit_order,
  ExecutionResult,
}
use mt5_mcp_trading_framewor.Pipeline.Interfaces.{OrderExecutor}
use mt5_mcp_trading_framewor.Backtest.Dict.{get, has, without}
use mt5_mcp_trading_framewor.Backtest.Ledger.{
  BacktestLedger, OpenPosition, PendingOrder, add_open_position, add_pending_order, close_position,
  manual_close,
}
use mt5_mcp_trading_framewor.Backtest.Replay.{View, half_spread_price}

module _ {F : Type 0} where
  abbrev pub filled_result : OrderPlan F → ℕ → F → ExecutionResult F
  filled_result plan ticket price = record {
    order_plan = some plan;
    success = true;
    retcode = pos 10009;
    ticket = some ticket;
    deal = some ticket;
    executed_price = some price;
    executed_volume = some plan.volume;
    broker_comment = "";
    verified = true;
  }

  abbrev pub bare_result : Option (OrderPlan F) → Bool → ℕ → ExecutionResult F
  bare_result plan success ticket = record {
    order_plan = plan;
    success = success;
    retcode = if success then pos 10009 else negsuc 0;
    ticket = some ticket;
    deal = none;
    executed_price = none;
    executed_volume = none;
    broker_comment = "";
    verified = success;
  }

  abbrev pub closed_result : ℕ → F → F → ExecutionResult F
  closed_result ticket price volume = record {
    order_plan = none;
    success = true;
    retcode = pos 10009;
    ticket = some ticket;
    deal = some ticket;
    executed_price = some price;
    executed_volume = some volume;
    broker_comment = "";
    verified = true;
  }

  -- what a plan becomes in the ledger; the ledger gives the ticket
  abbrev pub new_position : OrderPlan F → F → Time → OpenPosition F
  new_position plan price time = record {
    ticket = 0;
    symbol = plan.symbol;
    side = plan.side;
    volume = plan.volume;
    price_open = price;
    sl = plan.sl;
    tp = plan.tp;
    magic = plan.magic;
    comment = plan.comment;
    opened_at = time;
  }

  abbrev pub new_order : OrderPlan F → F → Time → PendingOrder F
  new_order plan price time = record {
    ticket = 0;
    symbol = plan.symbol;
    side = plan.side;
    volume = plan.volume;
    price = price;
    sl = plan.sl;
    tp = plan.tp;
    magic = plan.magic;
    comment = plan.comment;
    placed_at = time;
  }

  abbrev pub submit_limit :
      OrderPlan F → MarketBar F → Option F → Action (BacktestLedger F) (ExecutionResult F)
  submit_limit plan bar none = raise value_error
  submit_limit plan bar (some price) = do
    ticket ← add_pending_order (new_order plan price bar.time)
    pure (bare_result (some plan) true ticket)

  unfoldable pub cancel : ℕ → Action (BacktestLedger F) (ExecutionResult F)
  cancel ticket l = (
    ok (bare_result none (has ticket l.pending_orders) ticket),
    record l { pending_orders = without ticket l.pending_orders },
  )

module _ {F : Type 0} ⦃f : Float F⦄ where
  -- a buy pays the ask and sells at the bid, and a sell the other way round
  abbrev pub fill_price : Side → MarketBar F → F → F
  fill_price buy bar half = bar.close ⊕ half
  fill_price sell bar half = bar.close ⊖ half

  abbrev pub exit_price : Side → MarketBar F → F → F
  exit_price buy bar half = bar.close ⊖ half
  exit_price sell bar half = bar.close ⊕ half

  abbrev pub submit_market :
      OrderPlan F → MarketBar F → F → Action (BacktestLedger F) (ExecutionResult F)
  submit_market plan bar price = do
    ticket ← add_open_position (new_position plan price bar.time) none
    pure (filled_result plan ticket price)

  abbrev pub submit_at :
      SymbolInfo F
      → F
      → OrderPlan F
      → OrderType
      → MarketBar F
      → Action (BacktestLedger F) (ExecutionResult F)
  submit_at symbol_info spread_multiplier plan market_order bar =
      submit_market plan bar
        (fill_price plan.side bar (half_spread_price bar symbol_info spread_multiplier))
  submit_at symbol_info spread_multiplier plan limit_order bar = submit_limit plan bar plan.price

  unfoldable pub submit :
      View F → SymbolInfo F → F → OrderPlan F → Action (BacktestLedger F) (ExecutionResult F)
  submit v symbol_info spread_multiplier plan = do
    bar ← lift v.current_bar
    submit_at symbol_info spread_multiplier plan plan.order_type bar

  abbrev pub close_at :
      View F
      → SymbolInfo F
      → F
      → ℕ
      → Option (OpenPosition F)
      → Action (BacktestLedger F) (ExecutionResult F)
  close_at v symbol_info spread_multiplier ticket none = pure (bare_result none false ticket)
  close_at v symbol_info spread_multiplier ticket (some position) = do
    bar ← lift v.current_bar
    let price = exit_price position.side bar (half_spread_price bar symbol_info spread_multiplier)
    trade ← close_position ticket price manual_close bar.time
    pure (closed_result ticket price trade.volume)

  -- The volume is not looked at: a position is closed as a whole.
  unfoldable pub close_ticket :
      View F → SymbolInfo F → F → ℕ → Option F → Action (BacktestLedger F) (ExecutionResult F)
  close_ticket v symbol_info spread_multiplier ticket volume l =
      close_at v symbol_info spread_multiplier ticket (get ticket l.open_positions) l

  unfoldable pub order_executor : View F → SymbolInfo F → F → OrderExecutor (BacktestLedger F) F
  order_executor v symbol_info spread_multiplier = record {
    submit = submit v symbol_info spread_multiplier;
    cancel = cancel;
    close_position = close_ticket v symbol_info spread_multiplier;
  }
