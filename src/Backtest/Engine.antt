-- ===== src/Backtest/Engine.antt =====
-- backtest/engine.py: `run_backtest`, which drives both cycles over the bars.
pub mod Laws
pub mod Tickets
use mt5_mcp_trading_framewor.Common.{
  ℕ, zero, suc, ◌+◌, ◌-◌, ◌%◌, ltb, ◌==◌, Bool, true, false, Option, none, some, List, length,
  String, if◌then◌else◌,
}
use mt5_mcp_trading_framewor.Common.Outcome.{Outcome, ok, raised, value_error, grid_cycle_failed}
use mt5_mcp_trading_framewor.Common.Action.{Action, ◌>>=◌, ◌>>◌, pure, lift, raise, raise_if}
use mt5_mcp_trading_framewor.Float.{Float}
use mt5_mcp_trading_framewor.Domain.{MarketBar, SymbolInfo}
use mt5_mcp_trading_framewor.Risk.{ExposureCaps}
use mt5_mcp_trading_framewor.Sizing.{MoneyConfig}
use mt5_mcp_trading_framewor.Strategy.Grid.{GridStrategyConfig}
use mt5_mcp_trading_framewor.Strategy.Runner.{RunnerStrategyConfig}
use mt5_mcp_trading_framewor.Pipeline.GridCycle.{
  GridCycle, finished, grid_cycle_error, GridSettings, is_trending, run_grid_cycle,
}
use mt5_mcp_trading_framewor.Pipeline.RunnerCycle.{RunnerSettings, run_runner_cycle}
use mt5_mcp_trading_framewor.Backtest.Ledger.{BacktestLedger, new_ledger}
use mt5_mcp_trading_framewor.Backtest.Replay.{View, ReplayCursor, view, market_data, account_reader}
use mt5_mcp_trading_framewor.Backtest.Executor.{order_executor}
use mt5_mcp_trading_framewor.Backtest.Fills.{check_fills_and_exits}

-- The arguments of `run_backtest` besides the bars. `start` is `bars_count - 1`: `bars_count` is at
-- least one.
pub record BacktestSettings (F : Type 0) : Type 0 where
  pub symbol : String
  pub timeframe : String
  pub start : ℕ
  pub symbol_info : SymbolInfo F
  pub grid_config : GridStrategyConfig F
  pub runner_config : RunnerStrategyConfig F
  pub money_config : MoneyConfig F
  pub caps : ExposureCaps F
  pub grid_magic : ℕ
  pub runner_magic : ℕ
  pub cycle_interval_bars : ℕ
  pub spread_multiplier : F
  pub grid_max_entry_efficiency_ratio : Option F
  pub grid_efficiency_ratio_period : ℕ

module _ {F : Type 0} where
  abbrev pub grid_settings : BacktestSettings F → GridSettings F
  grid_settings c = record {
    symbol = c.symbol;
    timeframe = c.timeframe;
    bars_count = suc c.start;
    grid_config = c.grid_config;
    money_config = c.money_config;
    caps = c.caps;
    magic = c.grid_magic;
  }

  abbrev pub runner_settings : BacktestSettings F → RunnerSettings F
  runner_settings c = record {
    symbol = c.symbol;
    timeframe = c.timeframe;
    bars_count = suc c.start;
    runner_config = c.runner_config;
    money_config = c.money_config;
    caps = c.caps;
    magic = c.runner_magic;
  }

  -- a `GridCycleError` ends the replay as any other exception does
  abbrev pub settle : GridCycle F → Action (BacktestLedger F) (Unit {0})
  settle (finished results) = pure tt
  settle (grid_cycle_error results errors) = raise grid_cycle_failed

module _ {F : Type 0} ⦃f : Float F⦄ where
  abbrev pub run_grid : BacktestSettings F → View F → Action (BacktestLedger F) (Unit {0})
  run_grid c v =
      run_grid_cycle (market_data v c.symbol_info c.spread_multiplier) account_reader
        (order_executor v c.symbol_info c.spread_multiplier) (grid_settings c) none
      >>= settle

  abbrev pub run_runner : BacktestSettings F → View F → Action (BacktestLedger F) (Unit {0})
  run_runner c v =
      run_runner_cycle (market_data v c.symbol_info c.spread_multiplier) account_reader
        (order_executor v c.symbol_info c.spread_multiplier) (runner_settings c) none
      >>= λ _. pure tt

  -- the evaluation of new orders, with the replay's own regime filter
  abbrev pub evaluate_cycles : BacktestSettings F → View F → Action (BacktestLedger F) (Unit {0})
  evaluate_cycles c v = do
    skip_grid ← lift (
        is_trending c.grid_max_entry_efficiency_ratio (v.visible_bars (suc c.start))
          c.grid_efficiency_ratio_period)
    if skip_grid then pure tt else run_grid c v
    run_runner c v

  -- the body of the loop at `i = start + k`, of which it sees what the cursor shows
  unfoldable pub bar_step : BacktestSettings F → ℕ → View F → Action (BacktestLedger F) (Unit {0})
  bar_step c k v = do
    bar ← lift v.current_bar
    check_fills_and_exits bar
    if k % c.cycle_interval_bars == 0 then evaluate_cycles c v else pure tt

  -- the next `n` rounds of the loop, from `i = start + k`
  unfoldable pub replay :
      List (MarketBar F) → BacktestSettings F → ℕ → ℕ → Action (BacktestLedger F) (Unit {0})
  replay bars c zero k l = (ok tt, l)
  replay bars c (suc n) k l =
      (bar_step c k (view (record { bars = bars; index = c.start + k })) >> replay bars c n (suc k))
        l

  unfoldable pub run_backtest :
      List (MarketBar F) → BacktestSettings F → Outcome (Unit {0}) × BacktestLedger F
  unfolding replay
  run_backtest bars c =
      (do
        raise_if (ltb (length bars) (suc c.start)) value_error
        raise_if (ltb c.cycle_interval_bars 1) value_error
        replay bars c (length bars - c.start) 0)
        new_ledger
