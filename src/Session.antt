-- ===== src/Session.antt =====
-- scripts/run_demo_execution_pipeline_loop.py: the bounded loop that runs both strategies, over what a
-- session gives it.
pub mod Cycle
pub mod Loss
pub mod Loop
use mt5_mcp_trading_framewor.Common.{ℕ, Bool, Option, some, List, String}
use mt5_mcp_trading_framewor.Common.Action.{Action}
use mt5_mcp_trading_framewor.Float.{Float, ◌⊗◌}
use mt5_mcp_trading_framewor.Domain.{Time, Deal}
use mt5_mcp_trading_framewor.Risk.{ExposureCaps, DailyLossLimitConfig}
use mt5_mcp_trading_framewor.Sizing.{MoneyConfig}
use mt5_mcp_trading_framewor.State.Models.{LocalOrderRecord}
use mt5_mcp_trading_framewor.Strategy.Grid.{GridStrategyConfig}
use mt5_mcp_trading_framewor.Strategy.Runner.{RunnerStrategyConfig}
use mt5_mcp_trading_framewor.Pipeline.Interfaces.{MarketDataSource, AccountReader, OrderExecutor}
use mt5_mcp_trading_framewor.Pipeline.GridCycle.{GridSettings}
use mt5_mcp_trading_framewor.Pipeline.RunnerCycle.{RunnerSettings}
use mt5_mcp_trading_framewor.Pipeline.LoopControl.{LoopLimits}

-- what `main` has at hand inside of the session, over the state of everything outside
pub record Session (S F : Type 0) : Type 0 where
  pub market_data : MarketDataSource S F
  pub account : AccountReader S F
  pub executor : OrderExecutor S F
  -- the state store's `all_open` and `all_records`
  pub all_open : Action S (List (LocalOrderRecord F))
  pub all_records : Action S (List (LocalOrderRecord F))
  -- `get_deals` from the date of one instant to the date of another
  pub get_deals : Time → Time → Action S (List (Deal F))
  -- `datetime.now(timezone.utc)`, `time.monotonic() - start_time`, `STOP_FILE.exists()` and
  -- `asyncio.sleep`
  pub now : S → Time × S
  pub elapsed : S → F × S
  pub stop_file_exists : S → Bool × S
  pub sleep : F → S → S
  -- the configurations with their defaults
  pub grid_config : GridStrategyConfig F
  pub runner_config : RunnerStrategyConfig F
  pub money_config : MoneyConfig F

module _ {F : Type 0} ⦃f : Float F⦄ where
  abbrev pub loop_caps : ExposureCaps F
  loop_caps = record {
    max_open_lots = some (f.ratio 6 100);
    budget_max_lots = some (f.ratio 6 100);
  }

  abbrev pub loop_limits : LoopLimits F
  loop_limits = record {
    max_cycles = 30;
    max_runtime_seconds = f.of_nat 180 ⊗ f.of_nat 60;
    cycle_interval_seconds = f.of_nat 300;
    poll_interval_seconds = f.of_nat 5;
  }

  abbrev pub loop_loss_config : DailyLossLimitConfig F
  loop_loss_config = record { max_daily_loss = some (f.of_nat 50); reset_hour_utc = 0 }

  abbrev pub grid_settings : {S : Type 0} → Session S F → GridSettings F
  grid_settings session = record {
    symbol = "BTCUSD";
    timeframe = "M1";
    bars_count = 100;
    grid_config = session.grid_config;
    money_config = session.money_config;
    caps = loop_caps;
    magic = 71101;
  }

  abbrev pub runner_settings : {S : Type 0} → Session S F → RunnerSettings F
  runner_settings session = record {
    symbol = "BTCUSD";
    timeframe = "M1";
    bars_count = 100;
    runner_config = session.runner_config;
    money_config = session.money_config;
    caps = loop_caps;
    magic = 72101;
  }
