-- ===== src/Tests/Cycles.antt =====
-- pipeline/ at concrete surroundings, of which the state is the number of calls so far.
use mt5_mcp_trading_framewor.Common.{inr, ℕ, suc, ◌≡◌, refl, none, some, List, [], ◌∷◌}
use mt5_mcp_trading_framewor.Common.Int.{pos}
use mt5_mcp_trading_framewor.Common.Outcome.{ok, raised, runtime_error}
use mt5_mcp_trading_framewor.Float.{max, min}
use mt5_mcp_trading_framewor.Float.Fixed.{Fixed, fixed_float}
use mt5_mcp_trading_framewor.Domain.{
  MarketBar, Signal, OrderPlan, buy, sell, limit_order, flat, macd_signal,
}
use mt5_mcp_trading_framewor.Risk.{combine, check_exposure_cap, check_duplicate_order}
use mt5_mcp_trading_framewor.Sizing.{to_sized_intent, decide_lot}
use mt5_mcp_trading_framewor.Planning.{build_order_plan, normalize_limit_price, clamp_volume}
use mt5_mcp_trading_framewor.Pipeline.Interfaces.{MarketDataSource, AccountReader, OrderExecutor}
use mt5_mcp_trading_framewor.Pipeline.Stops.{stops}
use mt5_mcp_trading_framewor.Pipeline.GridSide.{GridInputs, side_plan}
use mt5_mcp_trading_framewor.Pipeline.GridCycle.{GridSettings, run_sides}
use mt5_mcp_trading_framewor.Pipeline.GridCycle.Laws.{run_sides_lem}
use mt5_mcp_trading_framewor.Pipeline.RunnerCycle.{RunnerSettings}
use mt5_mcp_trading_framewor.Pipeline.LoopControl.{LoopLimits}
use mt5_mcp_trading_framewor.Tests.Samples.{
  bar_at, twelve_bars, grid_config, runner_config, btc, btc_tick, money, wide_caps, intent_at,
  order_at,
}

abbrev market : MarketDataSource ℕ Fixed
market = record {
  get_bars = λ symbol timeframe count n. (ok twelve_bars, suc n);
  get_tick = λ symbol n. (ok btc_tick, suc n);
  get_symbol_info = λ symbol n. (ok btc, suc n);
}

-- one bar ten times over
abbrev still_bars : List (MarketBar Fixed)
still_bars =
    bar_at 1 100_000
    ∷ bar_at 2 100_000
    ∷ bar_at 3 100_000
    ∷ bar_at 4 100_000
    ∷ bar_at 5 100_000
    ∷ bar_at 6 100_000
    ∷ bar_at 7 100_000
    ∷ bar_at 8 100_000
    ∷ []

abbrev still_market : MarketDataSource ℕ Fixed
still_market = record market { get_bars = λ symbol timeframe count n. (ok still_bars, suc n) }

abbrev account : AccountReader ℕ Fixed
account = record {
  get_positions = λ symbol magic n. (ok [], suc n);
  get_orders = λ symbol magic n. (ok [], suc n);
}

-- an executor that loses its connection at every submission
abbrev broken_executor : OrderExecutor ℕ Fixed
broken_executor = record {
  submit = λ plan n. (raised runtime_error, suc n);
  cancel = λ ticket n. (raised runtime_error, suc n);
  close_position = λ ticket volume n. (raised runtime_error, suc n);
}

abbrev grid_inputs : GridInputs Fixed
grid_inputs = record {
  levels = record {
    symbol = "BTCUSD";
    timestamp = 3;
    center = pos 103_000;
    atr = pos 3000;
    step_price = pos 2000;
    tp_price = pos 2000;
    sl_price = pos 6000;
    buy_price = pos 101_000;
    sell_price = pos 105_000;
  };
  open_lots = pos 0;
  pending_lots = pos 10;
  pending_orders = order_at 7 sell 101_000 ∷ [];
  symbol_info = btc;
  tick = btc_tick;
  money_config = money;
  caps = wide_caps;
  magic = 71101;
}

abbrev buy_plan : OrderPlan Fixed
buy_plan = record {
  symbol = "BTCUSD";
  order_type = limit_order;
  side = buy;
  volume = pos 10;
  price = some (pos 101_000);
  sl = pos 95_000;
  tp = pos 103_000;
  deviation = 150;
  magic = 71101;
  comment = "grid_buy";
  filling_mode = none;
  expiry = none;
}

abbrev sell_plan : OrderPlan Fixed
sell_plan = record buy_plan {
  side = sell;
  price = some (pos 105_000);
  sl = pos 111_000;
  tp = pos 103_000;
  comment = "grid_sell";
}

run_sides_lem_example :
    run_sides broken_executor grid_inputs
      (intent_at buy limit_order (some (pos 101_000))
        ∷ intent_at sell limit_order (some (pos 105_000))
        ∷ [])
      ([], [])
      0
    ≡ (ok ([], (buy, runtime_error) ∷ (sell, runtime_error) ∷ []), 2)
unfolding fixed_float side_plan combine check_exposure_cap to_sized_intent decide_lot
    check_duplicate_order build_order_plan normalize_limit_price clamp_volume stops max min
run_sides_lem_example =
    run_sides_lem broken_executor grid_inputs
      (intent_at buy limit_order (some (pos 101_000))
        ∷ intent_at sell limit_order (some (pos 105_000))
        ∷ [])
      ((buy, buy_plan) ∷ (sell, sell_plan) ∷ []) 0
      (inr (buy_plan, (sell, sell_plan) ∷ [], refl, refl, inr (sell_plan, [], refl, refl, refl)))

abbrev grid_settings : GridSettings Fixed
grid_settings = record {
  symbol = "BTCUSD";
  timeframe = "M1";
  bars_count = 12;
  grid_config = grid_config;
  money_config = money;
  caps = wide_caps;
  magic = 71101;
}

abbrev runner_settings : RunnerSettings Fixed
runner_settings = record {
  symbol = "BTCUSD";
  timeframe = "M1";
  bars_count = 8;
  runner_config = runner_config;
  money_config = money;
  caps = wide_caps;
  magic = 72101;
}

abbrev flat_signal : Signal Fixed
flat_signal = record {
  symbol = "BTCUSD";
  strategy_name = "runner";
  direction = flat;
  timestamp = 8;
  rationale = macd_signal (pos 0) 1 2;
}

abbrev limits : LoopLimits Fixed
limits = record {
  max_cycles = 10;
  max_runtime_seconds = pos 3_600_000;
  cycle_interval_seconds = pos 300_000;
  poll_interval_seconds = pos 1000;
}
