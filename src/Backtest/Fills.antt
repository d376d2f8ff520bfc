-- ===== src/Backtest/Fills.antt =====
-- backtest/engine.py: `check_fills_and_exits`, the part of a bar that comes before the cycles.
pub mod Laws
pub mod Marks
pub mod SameBar
use mt5_mcp_trading_framewor.Common.{
  ℕ, Bool, true, false, not, ◌&&◌, ◌||◌, Option, none, some, List, [], ◌∷◌, str_eq, if◌then◌else◌,
}
use mt5_mcp_trading_framewor.Common.Outcome.{ok, raised}
use mt5_mcp_trading_framewor.Common.Action.{Action, ◌>>=◌, pure}
use mt5_mcp_trading_framewor.Float.{Float, ◌⊑◌}
use mt5_mcp_trading_framewor.Domain.{Side, buy, sell, MarketBar}
use mt5_mcp_trading_framewor.State.Reconcile.{mem}
use mt5_mcp_trading_framewor.Backtest.Dict.{Dict}
use mt5_mcp_trading_framewor.Backtest.Ledger.{
  BacktestLedger, OpenPosition, PendingOrder, fill_pending_order, close_position, CloseReason,
  stop_loss, take_profit,
}

module _ {F : Type 0} ⦃f : Float F⦄ where
  abbrev pub crosses : MarketBar F → PendingOrder F → Bool
  crosses bar order =
      str_eq order.symbol bar.symbol && ((bar.low ⊑ order.price) && (order.price ⊑ bar.high))

  -- the first loop, over the orders that were pending before it; the result is `just_filled`
  unfoldable pub fill_all :
      MarketBar F → Dict (PendingOrder F) → List ℕ → Action (BacktestLedger F) (List ℕ)
  fill_all bar [] just_filled l = (ok just_filled, l)
  fill_all bar ((ticket, order) ∷ rest) just_filled l = elim (crosses bar order) [
    | true ↦
        (fill_pending_order ticket bar.time >>= λ _. fill_all bar rest (ticket ∷ just_filled)) l
    | false ↦ fill_all bar rest just_filled l
  ]

  abbrev pub sl_hit : MarketBar F → Side → F → Bool
  sl_hit bar buy sl = bar.low ⊑ sl
  sl_hit bar sell sl = sl ⊑ bar.high

  abbrev pub tp_hit : MarketBar F → Side → F → Bool
  tp_hit bar buy tp = tp ⊑ bar.high
  tp_hit bar sell tp = bar.low ⊑ tp

  -- which exit a bar makes of a position, at which price: the stop-loss before the take-profit
  unfoldable pub exit_of : MarketBar F → OpenPosition F → Option (CloseReason × F)
  exit_of bar position =
      if sl_hit bar position.side position.sl
      then some (stop_loss, position.sl)
      else if tp_hit bar position.side position.tp
      then some (take_profit, position.tp)
      else none

  -- the exit, if there is one that is due
  abbrev pub due : MarketBar F → List ℕ → ℕ → OpenPosition F → Option (CloseReason × F)
  due bar just_filled ticket position =
      if mem ticket just_filled || not (str_eq position.symbol bar.symbol)
      then none
      else exit_of bar position

  -- the second loop, over the positions that were open before it
  unfoldable pub exit_all :
      MarketBar F → List ℕ → Dict (OpenPosition F) → Action (BacktestLedger F) (Unit {0})
  exit_all bar just_filled [] l = (ok tt, l)
  exit_all bar just_filled ((ticket, position) ∷ rest) l =
      elim (due bar just_filled ticket position) [
        | none ↦ exit_all bar just_filled rest l
        | some (reason, price) ↦
            (close_position ticket price reason bar.time >>= λ _. exit_all bar just_filled rest) l
      ]

  unfoldable pub check_fills_and_exits : MarketBar F → Action (BacktestLedger F) (Unit {0})
  unfolding fill_all exit_all
  check_fills_and_exits bar l =
      (fill_all bar l.pending_orders [] >>= λ just_filled l'.
      exit_all bar just_filled l'.open_positions l')
        l
