-- ===== src/Pipeline/GridCycle.antt =====
-- pipeline/grid_cycle.py: one evaluation of the grid strategy.
pub mod Laws
use mt5_mcp_trading_framewor.Common.{
  ℕ, Bool, true, false, not, Option, none, some, List, [], ◌∷◌, ◌++◌, String, if◌then◌else◌, map,
}
use mt5_mcp_trading_framewor.Common.Outcome.{Error, Outcome, ok, raised}
use mt5_mcp_trading_framewor.Common.Action.{Action, ◌>>=◌, pure, lift}
use mt5_mcp_trading_framewor.Float.{Float, ◌⊑◌}
use mt5_mcp_trading_framewor.Domain.{
  Side, MarketBar, SymbolInfo, Tick, GridLevels, TradeIntent, PositionState, OrderState, OrderPlan,
  ExecutionResult,
}
use mt5_mcp_trading_framewor.Features.{efficiency_ratio}
use mt5_mcp_trading_framewor.Risk.{ExposureCaps}
use mt5_mcp_trading_framewor.Sizing.{MoneyConfig}
use mt5_mcp_trading_framewor.Strategy.Grid.{
  GridStrategyConfig, compute_grid_levels, grid_levels_to_trade_intents,
}
use mt5_mcp_trading_framewor.State.Models.{LocalOrderRecord}
use mt5_mcp_trading_framewor.Pipeline.Interfaces.{
  MarketDataSource, AccountReader, OrderExecutor, read_exposure,
}
use mt5_mcp_trading_framewor.Pipeline.GridSide.{GridInputs, side_plan}

-- A cycle ends with the list of results, or raises `GridCycleError`, which carries the results and the
-- errors of the sides. (An exception of a read passes through as it is.)
pub data GridCycle (F : Type 0) : Type 0 where
  finished : List (ExecutionResult F) → GridCycle F
  grid_cycle_error : List (ExecutionResult F) → List (Side × Error) → GridCycle F

-- the arguments of `run_grid_cycle` besides the adapters
pub record GridSettings (F : Type 0) : Type 0 where
  pub symbol : String
  pub timeframe : String
  pub bars_count : ℕ
  pub grid_config : GridStrategyConfig F
  pub money_config : MoneyConfig F
  pub caps : ExposureCaps F
  pub magic : ℕ

module _ {F : Type 0} where
  -- the `except Exception` around the submission: either way the loop goes on
  abbrev pub tally :
      Side
      → Outcome (ExecutionResult F)
      → List (ExecutionResult F) × List (Side × Error)
      → List (ExecutionResult F) × List (Side × Error)
  tally side (ok result) (results, errors) = (results ++ result ∷ [], errors)
  tally side (raised e) (results, errors) = (results, errors ++ (side, e) ∷ [])

  abbrev pub close_cycle : List (ExecutionResult F) × List (Side × Error) → GridCycle F
  close_cycle (results, []) = finished results
  close_cycle (results, e ∷ es) = grid_cycle_error results (e ∷ es)

  abbrev pub both : TradeIntent F × TradeIntent F → List (TradeIntent F)
  both (a, b) = a ∷ b ∷ []

module _ {F : Type 0} ⦃f : Float F⦄ where
  abbrev pub inputs_of :
      GridSettings F
      → SymbolInfo F
      → Tick F
      → List (PositionState F) × List (OrderState F)
      → GridLevels F
      → GridInputs F
  inputs_of g symbol_info tick (positions, pending_orders) levels = record {
    levels = levels;
    open_lots = f.sum (map (λ p. p.volume) positions);
    pending_lots = f.sum (map (λ o. o.volume) pending_orders);
    pending_orders = pending_orders;
    symbol_info = symbol_info;
    tick = tick;
    money_config = g.money_config;
    caps = g.caps;
    magic = g.magic;
  }

  -- whether the regime filter skips the cycle
  abbrev pub is_trending : Option F → List (MarketBar F) → ℕ → Outcome Bool
  is_trending none bars period = ok false
  is_trending (some limit) bars period = elim (efficiency_ratio bars period) [
    | raised e ↦ raised e
    | ok er ↦ ok (limit ⊑ er)
  ]

module _ {S F : Type 0} ⦃f : Float F⦄ where
  -- the loop over the intents, with `results` and `errors` so far
  unfoldable pub run_sides :
      OrderExecutor S F
      → GridInputs F
      → List (TradeIntent F)
      → List (ExecutionResult F) × List (Side × Error)
      → Action S (List (ExecutionResult F) × List (Side × Error))
  unfolding side_plan
  run_sides executor i [] acc s = (ok acc, s)
  run_sides executor i (intent ∷ rest) acc s = elim (side_plan i intent) [
    | raised e ↦ (raised e, s)
    | ok none ↦ run_sides executor i rest acc s
    | ok (some plan) ↦
        let (r, s') = executor.submit plan s in
        run_sides executor i rest (tally intent.side r acc) s'
  ]

  -- the cycle behind the regime filter
  unfoldable pub propose_and_submit :
      MarketDataSource S F
      → AccountReader S F
      → OrderExecutor S F
      → GridSettings F
      → Option (Action S (List (LocalOrderRecord F)))
      → List (MarketBar F)
      → Action S (GridCycle F)
  unfolding run_sides
  propose_and_submit market account executor g state_store bars = do
    symbol_info ← market.get_symbol_info g.symbol
    tick ← market.get_tick g.symbol
    exposure ← read_exposure account state_store g.symbol g.magic
    levels ← lift (compute_grid_levels bars symbol_info.point g.grid_config)
    acc ←
        run_sides executor (inputs_of g symbol_info tick exposure levels)
          (both (grid_levels_to_trade_intents levels "grid")) ([], [])
    pure (close_cycle acc)

  unfoldable pub run_grid_cycle :
      MarketDataSource S F
      → AccountReader S F
      → OrderExecutor S F
      → GridSettings F
      → Option (Action S (List (LocalOrderRecord F)))
      → Action S (GridCycle F)
  unfolding propose_and_submit
  run_grid_cycle market account executor g state_store = do
    bars ← market.get_bars g.symbol g.timeframe g.bars_count
    skip ← lift (
        is_trending g.grid_config.max_entry_efficiency_ratio bars
          g.grid_config.efficiency_ratio_period)
    let rest = propose_and_submit market account executor g state_store bars
    if skip then pure (finished []) else rest
