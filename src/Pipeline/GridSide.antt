-- ===== src/Pipeline/GridSide.antt =====
-- pipeline/grid_cycle.py: what one side of the grid proposes, from the guards to the plan with its
-- stops.
pub mod Laws
use mt5_mcp_trading_framewor.Common.{
  ℕ, Bool, true, false, not, Option, none, some, List, [], ◌∷◌, ◌++◌, String, if◌then◌else◌, map,
}
use mt5_mcp_trading_framewor.Common.Outcome.{Outcome, ok, raised, type_error, ◌>>=◌}
use mt5_mcp_trading_framewor.Float.{Float, ◌⊑◌, nought}
use mt5_mcp_trading_framewor.Domain.{
  Side, buy, sell, MarketBar, SymbolInfo, Tick, GridLevels, TradeIntent, OrderState, OrderPlan,
  ExecutionResult, RiskDecision, SizedIntent,
}
use mt5_mcp_trading_framewor.Features.{efficiency_ratio}
use mt5_mcp_trading_framewor.Risk.{
  ExposureCaps, check_exposure_cap, check_duplicate_order, default_tol_ticks, combine,
}
use mt5_mcp_trading_framewor.Sizing.{MoneyConfig, decide_lot, to_sized_intent}
use mt5_mcp_trading_framewor.Planning.{build_order_plan, PlanOptions}
use mt5_mcp_trading_framewor.Strategy.Grid.{
  GridStrategyConfig, compute_grid_levels, grid_levels_to_trade_intents,
}
use mt5_mcp_trading_framewor.State.Models.{LocalOrderRecord}
use mt5_mcp_trading_framewor.Pipeline.Stops.{stops}

-- what the loop over the sides reads
pub record GridInputs (F : Type 0) : Type 0 where
  pub levels : GridLevels F
  pub open_lots : F
  pub pending_lots : F
  pub pending_orders : List (OrderState F)
  pub symbol_info : SymbolInfo F
  pub tick : Tick F
  pub money_config : MoneyConfig F
  pub caps : ExposureCaps F
  pub magic : ℕ

-- `f"grid_{intent.side.lower()}"`
abbrev pub grid_comment : Side → String
grid_comment buy = "grid_buy"
grid_comment sell = "grid_sell"

module _ {F : Type 0} ⦃f : Float F⦄ where
  abbrev pub sized_for : GridInputs F → TradeIntent F → SizedIntent F
  sized_for i intent = to_sized_intent intent (
      decide_lot i.money_config (record {
        atr = some i.levels.atr;
        step = some i.levels.step_price;
        account_balance = nought;
        point_value_per_lot = none;
        price_point = none;
        open_lots_now = none;
        pending_lots_now = none;
      }))

  -- the two guards on a side; a price of `None` cannot be subtracted from
  abbrev pub grid_guards : GridInputs F → TradeIntent F → Option F → Outcome (RiskDecision F)
  grid_guards i intent none = raised type_error
  grid_guards i intent (some price) = combine (
      check_exposure_cap i.open_lots i.pending_lots (sized_for i intent).volume i.caps
      ∷ check_duplicate_order i.pending_orders intent.side price i.symbol_info.point
          default_tol_ticks
      ∷ [])

  abbrev grid_options : GridInputs F → Side → PlanOptions F
  grid_options i side = record {
    magic = i.magic;
    comment = some (grid_comment side);
    deviation = 150;
    sl = nought;
    tp = nought;
  }

  -- `dataclasses.replace(plan, sl=sl, tp=tp)`, anchored to the plan's own price
  abbrev pub with_stops :
      GridInputs F → Side → OrderPlan F → Option F → Outcome (Option (OrderPlan F))
  with_stops i side plan none = raised type_error
  with_stops i side plan (some price) =
      let (sl, tp) = stops side price i.levels.sl_price i.levels.tp_price i.symbol_info.digits in
      ok (some (record plan { sl = sl; tp = tp }))

  abbrev pub finish_plan :
      GridInputs F → Side → Option (OrderPlan F) → Outcome (Option (OrderPlan F))
  finish_plan i side none = ok none
  finish_plan i side (some plan) = with_stops i side plan plan.price

  abbrev pub plan_if_approved :
      GridInputs F → TradeIntent F → RiskDecision F → Outcome (Option (OrderPlan F))
  plan_if_approved i intent combined =
      if not combined.approved
      then ok none
      else build_order_plan (sized_for i intent) combined i.symbol_info i.tick
          (grid_options i intent.side)
        >>= finish_plan i intent.side

  -- the body of the loop up to the submission: the plan of one side, or none if it is skipped
  unfoldable pub side_plan : GridInputs F → TradeIntent F → Outcome (Option (OrderPlan F))
  side_plan i intent = grid_guards i intent intent.reference_price >>= plan_if_approved i intent
