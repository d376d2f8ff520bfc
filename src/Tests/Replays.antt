-- ===== src/Tests/Replays.antt =====
-- backtest/ at concrete bars and ledgers.
use mt5_mcp_trading_framewor.Common.{refl, ◌≡◌, none, some, [], ◌∷◌, ◌++◌, arith}
use mt5_mcp_trading_framewor.Common.Int.{pos, negsuc}
use mt5_mcp_trading_framewor.Common.Action.{◌>>◌}
use mt5_mcp_trading_framewor.Float.Fixed.{Fixed, fixed_float, Fixed-IsOrdered, Fixed-IsArith}
use mt5_mcp_trading_framewor.Float.{◌⊖◌, ◌≼◌, nought, max}
use mt5_mcp_trading_framewor.Backtest.Metrics.{multiples, max_drawdown_r}
use mt5_mcp_trading_framewor.Backtest.Metrics.Laws.{reached, max_drawdown_r_lem}
use mt5_mcp_trading_framewor.Domain.{buy, MarketBar}
use mt5_mcp_trading_framewor.Backtest.Dict.{get}
use mt5_mcp_trading_framewor.Backtest.Ledger.{
  BacktestLedger, ClosedTrade, OpenPosition, PendingOrder, new_ledger, position_of,
  fill_pending_order, stop_loss, take_profit,
}
use mt5_mcp_trading_framewor.Backtest.Ledger.Laws.{IsSound}
use mt5_mcp_trading_framewor.Backtest.Fills.SameBar.{check_fills_and_exits_same_bar}
use mt5_mcp_trading_framewor.Backtest.Fills.{fill_all, check_fills_and_exits}
use mt5_mcp_trading_framewor.Backtest.Engine.{BacktestSettings, replay, run_backtest}
use mt5_mcp_trading_framewor.Backtest.Engine.Laws.{run_backtest_prefix}
use mt5_mcp_trading_framewor.Backtest.Engine.Tickets.{run_backtest-IsSound}
use mt5_mcp_trading_framewor.Tests.Samples.{
  bar_at, twelve_bars, grid_config, runner_config, btc, money, wide_caps,
}

abbrev settings : BacktestSettings Fixed
settings = record {
  symbol = "BTCUSD";
  timeframe = "M1";
  start = 9;
  symbol_info = btc;
  grid_config = grid_config;
  runner_config = runner_config;
  money_config = money;
  caps = wide_caps;
  grid_magic = 71101;
  runner_magic = 72101;
  cycle_interval_bars = 2;
  spread_multiplier = pos 1000;
  grid_max_entry_efficiency_ratio = none;
  grid_efficiency_ratio_period = 5;
}

run_backtest_prefix_example :
    run_backtest (twelve_bars ++ bar_at 13 1_000 ∷ []) settings
    ≡ ((λ _. run_backtest twelve_bars settings)
          >> replay (twelve_bars ++ bar_at 13 1_000 ∷ []) settings 1 3)
        new_ledger
run_backtest_prefix_example =
    run_backtest_prefix twelve_bars (bar_at 13 1_000 ∷ []) settings (omega arith) (omega arith)

run_backtest-IsSound_example : IsSound (run_backtest twelve_bars settings).1
run_backtest-IsSound_example = run_backtest-IsSound twelve_bars settings

abbrev resting : PendingOrder Fixed
resting = record {
  ticket = 1;
  symbol = "BTCUSD";
  side = buy;
  volume = pos 10;
  price = pos 101_000;
  sl = pos 95_000;
  tp = pos 103_000;
  magic = 71101;
  comment = "grid_buy";
  placed_at = 4;
}

abbrev waiting : BacktestLedger Fixed
waiting = record new_ledger { next_ticket = 2; pending_orders = (1, resting) ∷ [] }

abbrev long_position : OpenPosition Fixed
long_position = position_of resting 5

-- a bar whose range has the limit price and the stop-loss in it
abbrev wide_bar : MarketBar Fixed
wide_bar = record (bar_at 6 94_000) { high = pos 104_000 }

abbrev filled : BacktestLedger Fixed
filled = record waiting {
  pending_orders = [];
  open_positions = (1, record (position_of resting 6) { ticket = 1 }) ∷ [];
}

check_fills_and_exits_same_bar_example :
    get 1 (check_fills_and_exits wide_bar waiting).1.open_positions
    ≡ some (record (position_of resting 6) { ticket = 1 })
unfolding fixed_float fill_all fill_pending_order
check_fills_and_exits_same_bar_example =
    check_fills_and_exits_same_bar wide_bar waiting 1
      (record (position_of resting 6) { ticket = 1 }) refl refl

abbrev won : ClosedTrade Fixed
won = record {
  ticket = 1;
  symbol = "BTCUSD";
  side = buy;
  volume = pos 10;
  price_open = pos 101_000;
  price_close = pos 103_000;
  sl = pos 100_000;
  tp = pos 103_000;
  magic = 71101;
  comment = "grid_buy";
  opened_at = 5;
  closed_at = 6;
  close_reason = take_profit;
  r_multiple = pos 2000;
  notional_pnl = pos 20;
}

abbrev lost : ClosedTrade Fixed
lost = record won {
  ticket = 2;
  price_close = pos 100_000;
  close_reason = stop_loss;
  r_multiple = negsuc 999;
}

max_drawdown_r_lem_example :
    reached nought (multiples (won ∷ [])) ⊖ reached nought (multiples (won ∷ lost ∷ lost ∷ []))
    ≼ pos 2000
unfolding fixed_float max_drawdown_r max
max_drawdown_r_lem_example =
    max_drawdown_r_lem Fixed-IsOrdered Fixed-IsArith (won ∷ []) (lost ∷ lost ∷ [])
      {drawdown = pos 2000} refl
