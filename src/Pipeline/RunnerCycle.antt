-- ===== src/Pipeline/RunnerCycle.antt =====
-- pipeline/runner_cycle.py: one evaluation of the runner strategy.
pub mod Laws
use mt5_mcp_trading_framewor.Common.{
  ℕ, Bool, true, false, not, Option, none, some, List, [], ◌∷◌, String, if◌then◌else◌, map,
}
use mt5_mcp_trading_framewor.Common.Outcome.{Outcome, ok, raised}
use mt5_mcp_trading_framewor.Common.Action.{Action, ◌>>=◌, pure, lift}
use mt5_mcp_trading_framewor.Float.{Float, nought}
use mt5_mcp_trading_framewor.Domain.{
  Side, buy, sell, MarketBar, SymbolInfo, Tick, TradeIntent, PositionState, OrderState, OrderPlan,
  ExecutionResult, RiskDecision, SizedIntent,
}
use mt5_mcp_trading_framewor.Risk.{ExposureCaps, check_exposure_cap, check_position_limit, combine}
use mt5_mcp_trading_framewor.Sizing.{MoneyConfig, decide_lot, to_sized_intent}
use mt5_mcp_trading_framewor.Planning.{build_order_plan, PlanOptions}
use mt5_mcp_trading_framewor.Strategy.Runner.{
  RunnerStrategyConfig, runner_signal, compute_stop_distances, signal_to_trade_intent,
}
use mt5_mcp_trading_framewor.State.Models.{LocalOrderRecord}
use mt5_mcp_trading_framewor.Pipeline.Interfaces.{
  MarketDataSource, AccountReader, OrderExecutor, read_exposure,
}
use mt5_mcp_trading_framewor.Pipeline.Stops.{stops}

-- what the cycle has read when it decides
pub record RunnerInputs (F : Type 0) : Type 0 where
  pub bars : List (MarketBar F)
  pub positions : List (PositionState F)
  pub pending_orders : List (OrderState F)
  pub symbol_info : SymbolInfo F
  pub tick : Tick F
  pub runner_config : RunnerStrategyConfig F
  pub money_config : MoneyConfig F
  pub caps : ExposureCaps F
  pub magic : ℕ

-- the arguments of `run_runner_cycle` besides the adapters
pub record RunnerSettings (F : Type 0) : Type 0 where
  pub symbol : String
  pub timeframe : String
  pub bars_count : ℕ
  pub runner_config : RunnerStrategyConfig F
  pub money_config : MoneyConfig F
  pub caps : ExposureCaps F
  pub magic : ℕ

module _ {F : Type 0} where
  -- the price that a market order of this side gets
  abbrev pub market_price : Side → Tick F → F
  market_price buy tick = tick.ask
  market_price sell tick = tick.bid

module _ {F : Type 0} ⦃f : Float F⦄ where
  -- the runner gives the sizing nothing but the configuration
  abbrev pub runner_sized : RunnerInputs F → TradeIntent F → SizedIntent F
  runner_sized i intent = to_sized_intent intent (
      decide_lot i.money_config (record {
        atr = none;
        step = none;
        account_balance = nought;
        point_value_per_lot = none;
        price_point = none;
        open_lots_now = none;
        pending_lots_now = none;
      }))

  abbrev pub runner_guards : RunnerInputs F → TradeIntent F → Outcome (RiskDecision F)
  runner_guards i intent = combine (
      check_exposure_cap (f.sum (map (λ p. p.volume) i.positions))
        (f.sum (map (λ o. o.volume) i.pending_orders)) (runner_sized i intent).volume i.caps
      ∷ check_position_limit i.positions i.runner_config.max_concurrent_positions
      ∷ [])

  abbrev runner_options : ℕ → F × F → PlanOptions F
  runner_options magic (sl, tp) = record {
    magic = magic;
    comment = some "runner";
    deviation = 150;
    sl = sl;
    tp = tp;
  }

  -- the plan with its stops, around the price that a market order gets
  abbrev pub plan_with_distances :
      RunnerInputs F → TradeIntent F → RiskDecision F → F × F → Outcome (Option (OrderPlan F))
  plan_with_distances i intent combined (sl_distance, tp_distance) =
      build_order_plan (runner_sized i intent) combined i.symbol_info i.tick (
        runner_options i.magic (
          stops intent.side (market_price intent.side i.tick) sl_distance tp_distance
            i.symbol_info.digits))

  abbrev pub plan_with_outcome :
      RunnerInputs F
      → TradeIntent F
      → RiskDecision F
      → Outcome (F × F)
      → Outcome (Option (OrderPlan F))
  plan_with_outcome i intent combined (raised e) = raised e
  plan_with_outcome i intent combined (ok d) = plan_with_distances i intent combined d

  abbrev pub runner_plan_if_approved :
      RunnerInputs F → TradeIntent F → RiskDecision F → Outcome (Option (OrderPlan F))
  runner_plan_if_approved i intent combined =
      if not combined.approved
      then ok none
      else plan_with_outcome i intent combined
          (compute_stop_distances i.bars i.symbol_info.point i.runner_config)

  -- everything between the reads and the submission
  unfoldable pub runner_plan : RunnerInputs F → TradeIntent F → Outcome (Option (OrderPlan F))
  runner_plan i intent = elim (runner_guards i intent) [
    | raised e ↦ raised e
    | ok combined ↦ runner_plan_if_approved i intent combined
  ]

  abbrev pub runner_inputs :
      RunnerSettings F
      → List (MarketBar F)
      → SymbolInfo F
      → Tick F
      → List (PositionState F) × List (OrderState F)
      → RunnerInputs F
  runner_inputs g bars symbol_info tick (positions, pending_orders) = record {
    bars = bars;
    positions = positions;
    pending_orders = pending_orders;
    symbol_info = symbol_info;
    tick = tick;
    runner_config = g.runner_config;
    money_config = g.money_config;
    caps = g.caps;
    magic = g.magic;
  }

module _ {S F : Type 0} where
  abbrev pub submit_plan :
      OrderExecutor S F → Option (OrderPlan F) → Action S (Option (ExecutionResult F))
  submit_plan executor none = pure none
  submit_plan executor (some plan) = do result ← executor.submit plan; pure (some result)

module _ {S F : Type 0} ⦃f : Float F⦄ where
  -- the cycle behind the signal: a flat one ends it without another read
  unfoldable pub act_on_intent :
      MarketDataSource S F
      → AccountReader S F
      → OrderExecutor S F
      → RunnerSettings F
      → Option (Action S (List (LocalOrderRecord F)))
      → List (MarketBar F)
      → Option (TradeIntent F)
      → Action S (Option (ExecutionResult F))
  unfolding runner_plan
  act_on_intent market account executor g state_store bars none = pure none
  act_on_intent market account executor g state_store bars (some intent) = do
    symbol_info ← market.get_symbol_info g.symbol
    tick ← market.get_tick g.symbol
    exposure ← read_exposure account state_store g.symbol g.magic
    plan ← lift (runner_plan (runner_inputs g bars symbol_info tick exposure) intent)
    submit_plan executor plan

  unfoldable pub run_runner_cycle :
      MarketDataSource S F
      → AccountReader S F
      → OrderExecutor S F
      → RunnerSettings F
      → Option (Action S (List (LocalOrderRecord F)))
      → Action S (Option (ExecutionResult F))
  unfolding act_on_intent
  run_runner_cycle market account executor g state_store = do
    bars ← market.get_bars g.symbol g.timeframe g.bars_count
    signal ← lift (runner_signal bars g.runner_config)
    act_on_intent market account executor g state_store bars (signal_to_trade_intent signal)
