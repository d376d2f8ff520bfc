-- ===== src/Tests/Samples.antt =====
-- The inputs that the examples share.
use mt5_mcp_trading_framewor.Common.{
  true, false, ℕ, zero, suc, ◌+◌, ◌*◌, List, [], ◌∷◌, Option, none, some, codes,
}
use mt5_mcp_trading_framewor.Common.Int.{pos}
use mt5_mcp_trading_framewor.Float.Fixed.{Fixed}
use mt5_mcp_trading_framewor.Domain.{
  MarketBar, SymbolInfo, Tick, PositionState, OrderState, RiskDecision, within_caps, position_limit,
  TradeIntent, Side, OrderType,
}
use mt5_mcp_trading_framewor.Risk.{ExposureCaps}
use mt5_mcp_trading_framewor.Sizing.{MoneyConfig}
use mt5_mcp_trading_framewor.Strategy.Grid.{GridStrategyConfig, last_center}
use mt5_mcp_trading_framewor.Strategy.Runner.{RunnerStrategyConfig}

-- a bar of one point's range around its close
abbrev pub bar_at : ℕ → ℕ → MarketBar Fixed
bar_at time close = record {
  symbol = "BTCUSD";
  timeframe = "M1";
  time = time;
  open_price = pos close;
  high = pos (1000 + close);
  low = pos close;
  close = pos close;
  tick_volume = 10;
  spread = 2;
}

abbrev pub some_bars : List (MarketBar Fixed)
some_bars = bar_at 1 100_000 ∷ bar_at 2 101_000 ∷ bar_at 3 103_000 ∷ []

-- prices of three digits, in points of 0.1
abbrev pub btc : SymbolInfo Fixed
btc = record {
  symbol = "BTCUSD";
  digits = 3;
  point = pos 100;
  volume_min = pos 10;
  volume_max = pos 5000;
  volume_step = pos 10;
  stops_level = 10;
  freeze_level = 5;
  spread = 2;
}

abbrev pub btc_tick : Tick Fixed
btc_tick = record { symbol = "BTCUSD"; bid = pos 103_000; ask = pos 103_200; time = 3 }

abbrev pub order_at : ℕ → Side → ℕ → OrderState Fixed
order_at ticket side price = record {
  ticket = ticket;
  symbol = "BTCUSD";
  side = side;
  volume = pos 10;
  price = pos price;
  magic = 71101;
}

abbrev pub position_at : ℕ → Side → ℕ → PositionState Fixed
position_at ticket side price = record {
  ticket = ticket;
  symbol = "BTCUSD";
  side = side;
  volume = pos 10;
  price_open = pos price;
  profit = pos 0;
  magic = 72101;
  sl = pos 0;
  tp = pos 0;
}

abbrev pub granted : RiskDecision Fixed
granted = record { approved = true; reasons = within_caps ∷ []; blocking_guard = none }

abbrev pub refused : RiskDecision Fixed
refused = record { approved = false; reasons = []; blocking_guard = some position_limit }

abbrev pub intent_at : Side → OrderType → Option Fixed → TradeIntent Fixed
intent_at side t price = record {
  symbol = "BTCUSD";
  side = side;
  strategy_name = "grid";
  desired_order_type = t;
  timestamp = 3;
  reference_price = price;
  signal_ref = none;
}

abbrev pub money : MoneyConfig Fixed
money = record {
  lot_size_mode = codes "fixed";
  fixed_lot = pos 10;
  atr_scale_base = pos 10;
  atr_scale_ref = pos 100;
  atr_scale_min = pos 10;
  atr_scale_max = pos 100;
  risk_per_trade = pos 0;
  stop_distance_points = none;
  max_open_lots_hint = none;
}

abbrev pub wide_caps : ExposureCaps Fixed
wide_caps = record { max_open_lots = some (pos 1000); budget_max_lots = none }

abbrev pub runner_config : RunnerStrategyConfig Fixed
runner_config = record {
  fast = 1;
  slow = 2;
  min_bars_floor = 1;
  atr_period = 1;
  sl_atr_mult = pos 1500;
  tp_atr_mult = pos 3000;
  min_stop_distance_points = pos 50_000;
  min_stop_distance_fraction_of_price = pos 1;
  max_concurrent_positions = 2;
}

abbrev pub grid_config : GridStrategyConfig Fixed
grid_config = record {
  atr_period = 1;
  center_ema_period = 2;
  center_mode = last_center;
  step_mult = pos 500;
  min_step_points = pos 20_000;
  sl_atr_mult = pos 2000;
  max_entry_efficiency_ratio = some (pos 500);
  efficiency_ratio_period = 1;
}

-- twelve closes, each a point above the one before
abbrev rising : ℕ → ℕ → List (MarketBar Fixed)
rising time zero = []
rising time (suc n) = bar_at time (100_000 + time * 1000) ∷ rising (suc time) n

abbrev pub twelve_bars : List (MarketBar Fixed)
twelve_bars = rising 1 12
