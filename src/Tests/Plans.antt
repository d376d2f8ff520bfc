-- ===== src/Tests/Plans.antt =====
-- order_planning/ and the plans of both cycles at concrete inputs.
use mt5_mcp_trading_framewor.Common.{false, ◌≡◌, ◌<◌, refl, true, none, some, [], ◌∷◌}
use mt5_mcp_trading_framewor.Common.Int.{pos}
use mt5_mcp_trading_framewor.Float.{◌⊘◌, ◌⊗◌, max, min}
use mt5_mcp_trading_framewor.Float.Fixed.{Fixed, fixed_float, Fixed-IsOrdered, Fixed-IsArith}
use mt5_mcp_trading_framewor.Domain.{
  SizedIntent, OrderPlan, GridLevels, buy, sell, limit_order, market_order,
}
use mt5_mcp_trading_framewor.Risk.{
  combine, check_exposure_cap, check_duplicate_order, check_position_limit,
}
use mt5_mcp_trading_framewor.Sizing.{to_sized_intent, decide_lot}
use mt5_mcp_trading_framewor.Planning.{
  PlanOptions, buy_limit, is_zero, normalize_limit_price, clamp_volume, build_order_plan,
}
use mt5_mcp_trading_framewor.Planning.Laws.{
  IsClear, Fits, normalize_limit_price_lem, build_order_plan_lem,
}
use mt5_mcp_trading_framewor.Strategy.Runner.{compute_stop_distances}
use mt5_mcp_trading_framewor.Features.{atr}
use mt5_mcp_trading_framewor.Pipeline.Stops.{stops, IsBracketed}
use mt5_mcp_trading_framewor.Pipeline.GridSide.{GridInputs, side_plan}
use mt5_mcp_trading_framewor.Pipeline.GridSide.Laws.{IsVetted, side_plan_lem}
use mt5_mcp_trading_framewor.Pipeline.RunnerCycle.{RunnerInputs, runner_plan, runner_sized}
use mt5_mcp_trading_framewor.Pipeline.RunnerCycle.Laws.{runner_plan_lem}
use mt5_mcp_trading_framewor.Tests.Samples.{
  some_bars, runner_config, btc, btc_tick, money, wide_caps, order_at, position_at, intent_at,
  granted,
}

-- a level inside the broker's distance is moved away from the market
normalize_limit_price_lem_example :
    IsClear buy_limit btc btc_tick (pos 101_000)
    × ((x : Fixed) × (pos 101_000 ≡ fixed_float.round (x ⊘ btc.point) ⊗ btc.point))
    × (is_zero btc.point ≡ false)
unfolding fixed_float normalize_limit_price
normalize_limit_price_lem_example =
    normalize_limit_price_lem (pos 102_900) buy_limit btc btc_tick {p = pos 101_000} refl

abbrev sized : SizedIntent Fixed
sized = record {
  intent = intent_at buy limit_order (some (pos 101_000));
  volume = pos 14;
  sizing_mode = [];
  sizing_rationale = [];
}

abbrev bare_options : PlanOptions Fixed
bare_options = record { magic = 71101; comment = none; deviation = 150; sl = pos 0; tp = pos 0 }

abbrev bare_plan : OrderPlan Fixed
bare_plan = record {
  symbol = "BTCUSD";
  order_type = limit_order;
  side = buy;
  volume = pos 10;
  price = some (pos 101_000);
  sl = pos 0;
  tp = pos 0;
  deviation = 150;
  magic = 71101;
  comment = "grid";
  filling_mode = none;
  expiry = none;
}

build_order_plan_lem_example :
    (granted.approved ≡ true) × Fits sized btc btc_tick bare_options bare_plan
unfolding fixed_float build_order_plan normalize_limit_price clamp_volume max min
build_order_plan_lem_example =
    build_order_plan_lem sized granted btc btc_tick bare_options {plan = bare_plan} refl

abbrev levels : GridLevels Fixed
levels = record {
  symbol = "BTCUSD";
  timestamp = 3;
  center = pos 103_000;
  atr = pos 3000;
  step_price = pos 2000;
  tp_price = pos 2000;
  sl_price = pos 6000;
  buy_price = pos 101_000;
  sell_price = pos 105_000;
}

abbrev grid_inputs : GridInputs Fixed
grid_inputs = record {
  levels = levels;
  open_lots = pos 0;
  pending_lots = pos 10;
  pending_orders = order_at 7 sell 101_000 ∷ [];
  symbol_info = btc;
  tick = btc_tick;
  money_config = money;
  caps = wide_caps;
  magic = 71101;
}

abbrev grid_plan : OrderPlan Fixed
grid_plan = record bare_plan { comment = "grid_buy"; sl = pos 95_000; tp = pos 103_000 }

side_plan_lem_example :
    (reference : Fixed) × (price : Fixed) × IsVetted grid_inputs
      (intent_at buy limit_order (some (pos 101_000)))
      grid_plan
      reference
      price
    × IsBracketed buy
        (fixed_float.round_to price grid_inputs.symbol_info.digits)
        (grid_plan.sl, grid_plan.tp)
unfolding fixed_float side_plan combine check_exposure_cap to_sized_intent decide_lot
    check_duplicate_order build_order_plan normalize_limit_price clamp_volume stops max min
side_plan_lem_example =
    side_plan_lem Fixed-IsOrdered Fixed-IsArith grid_inputs
      (intent_at buy limit_order (some (pos 101_000))) {plan = grid_plan} refl refl refl refl

abbrev runner_inputs_now : RunnerInputs Fixed
runner_inputs_now = record {
  bars = some_bars;
  positions = position_at 5 buy 100_000 ∷ [];
  pending_orders = [];
  symbol_info = btc;
  tick = btc_tick;
  runner_config = runner_config;
  money_config = money;
  caps = wide_caps;
  magic = 72101;
}

abbrev sell_plan : OrderPlan Fixed
sell_plan = record {
  symbol = "BTCUSD";
  order_type = market_order;
  side = sell;
  volume = pos 10;
  price = some (pos 103_000);
  sl = pos 107_500;
  tp = pos 94_000;
  deviation = 150;
  magic = 72101;
  comment = "runner";
  filling_mode = none;
  expiry = none;
}

abbrev distances : Fixed × Fixed
distances = (pos 4500, pos 9000)

runner_plan_lem_example :
    (1 < 2)
    × (sell_plan.price ≡ some (pos 103_000))
    × (sell_plan.volume
        ≡ clamp_volume
            (runner_sized runner_inputs_now (intent_at sell market_order none)).volume
            btc)
    × IsBracketed sell (pos 103_000) (pos 107_500, pos 94_000)
unfolding fixed_float runner_plan compute_stop_distances atr combine check_exposure_cap
    to_sized_intent decide_lot check_position_limit build_order_plan clamp_volume stops min
runner_plan_lem_example =
    runner_plan_lem Fixed-IsOrdered Fixed-IsArith runner_inputs_now
      (intent_at sell market_order none) {plan = sell_plan} {d = distances} refl refl refl refl refl
      refl refl
