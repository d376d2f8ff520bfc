-- ===== src/Adapter/Executor/Submit.antt =====
-- `submit`: limit orders, and market orders whose stops are attached afterwards.
use mt5_mcp_trading_framewor.Common.{
  ℕ, Bool, true, false, not, Option, none, some, [], ◌∷◌, String, if◌then◌else◌, ◌==◌, any,
}
use mt5_mcp_trading_framewor.Common.Int.{pos}
use mt5_mcp_trading_framewor.Common.Outcome.{
  Outcome, ok, raised, execution_blocked, sl_tp_attachment_failed,
}
use mt5_mcp_trading_framewor.Common.Action.{
  Action, ◌>>=◌, ◌>>◌, pure, raise, lift, attempt, raise_if,
}
use mt5_mcp_trading_framewor.Float.{Float}
use mt5_mcp_trading_framewor.Domain.{
  OrderPlan, ExecutionResult, OrderType, limit_order, market_order,
}
use mt5_mcp_trading_framewor.State.Models.{open_status, open_unprotected, OrderRecordStatus}
use mt5_mcp_trading_framewor.State.Reconcile.{ExecutionPosture, normal}
use mt5_mcp_trading_framewor.State.Store.{record_submission, mark_sl_tp_attached}
use mt5_mcp_trading_framewor.Mcp.Client.{
  Argument, Arguments, text, number, integer, null, call_tool,
}
use mt5_mcp_trading_framewor.Adapter.Response.{TradeResponse, parse_trade_response, done}
use mt5_mcp_trading_framewor.Adapter.Executor.{
  McpOrderExecutor, Machine, outside, in_store, clock, wait,
}
use mt5_mcp_trading_framewor.Adapter.Executor.Posture.{PostureCheck, gate, current_posture}
use mt5_mcp_trading_framewor.Adapter.Executor.Placing.{
  side_text, order_ticket, validate_market_sl_tp, submission_of, not_done, submitted, stops_match,
  verify,
}

-- `posture is not ExecutionPosture.NORMAL`
abbrev pub is_not_normal : ExecutionPosture → Bool
is_not_normal normal = false
is_not_normal _ = true

module _ {F : Type 0} where
  abbrev price_argument : Option F → Argument F
  price_argument none = null
  price_argument (some price) = number price

  abbrev pub pending_arguments : OrderPlan F → Arguments F
  pending_arguments plan =
      ("symbol", text plan.symbol)
      ∷ ("volume", number plan.volume)
      ∷ ("type", text (side_text plan.side))
      ∷ ("price", price_argument plan.price)
      ∷ ("stop_loss", number plan.sl)
      ∷ ("take_profit", number plan.tp)
      ∷ []

  abbrev pub market_arguments : OrderPlan F → Arguments F
  market_arguments plan =
      ("symbol", text plan.symbol)
      ∷ ("volume", number plan.volume)
      ∷ ("type", text (side_text plan.side))
      ∷ []

  abbrev pub stops_arguments : ℕ → OrderPlan F → Arguments F
  stops_arguments ticket plan =
      ("id", integer (pos ticket))
      ∷ ("stop_loss", number plan.sl)
      ∷ ("take_profit", number plan.tp)
      ∷ []

module _ {W F : Type 0} ⦃f : Float F⦄ (self : McpOrderExecutor W F) where
  -- the call of a trading tool with the reading of its response
  abbrev pub trade : String → Arguments F → Action W (TradeResponse F)
  trade name arguments =
      call_tool self.client name arguments >>= λ raw. lift (parse_trade_response self.lib raw)

  unfoldable pub verify_position_present : ℕ → String → Action W Bool
  unfolding verify
  verify_position_present ticket symbol =
      verify 3 (wait self) (self.account.get_positions (some symbol) none)
        (λ positions. any (λ p. p.ticket == ticket) positions)

  unfoldable pub verify_sl_tp_attached : ℕ → OrderPlan F → Action W Bool
  unfolding verify
  verify_sl_tp_attached ticket plan =
      verify 3 (wait self) (self.account.get_positions (some plan.symbol) none)
        (λ positions. stops_match ticket plan.sl plan.tp positions)

  unfoldable pub verify_present : ℕ → String → Action W Bool
  unfolding verify
  verify_present ticket symbol =
      verify 3 (wait self) (self.account.get_orders (some symbol) none)
        (λ orders. any (λ o. o.ticket == ticket) orders)

  -- the new order goes into the store
  abbrev pub record_order :
      OrderPlan F → TradeResponse F → OrderRecordStatus → ℕ → Action (Machine W F) (Unit {0})
  record_order plan response status ticket = outside (clock self) >>= λ submitted_at.
      in_store (record_submission (submission_of plan response ticket submitted_at) status)

  unfoldable pub confirm_limit :
      OrderPlan F → TradeResponse F → ℕ → Action (Machine W F) (ExecutionResult F)
  unfolding verify_present
  confirm_limit plan response ticket = outside (verify_present ticket plan.symbol) >>= λ verified.
      pure (submitted plan response ticket verified)

  unfoldable pub limit_placed :
      OrderPlan F → TradeResponse F → ℕ → Action (Machine W F) (ExecutionResult F)
  unfolding confirm_limit
  limit_placed plan response ticket =
      record_order plan response open_status ticket >> confirm_limit plan response ticket

  unfoldable pub limit_done :
      OrderPlan F → TradeResponse F → Action (Machine W F) (ExecutionResult F)
  unfolding limit_placed
  limit_done plan response = lift (order_ticket self.lib response) >>= limit_placed plan response

  unfoldable pub submit_limit : OrderPlan F → Action (Machine W F) (ExecutionResult F)
  unfolding limit_done
  submit_limit plan = do
    response ← outside (trade "place_pending_order" (pending_arguments plan))
    if done response then limit_done plan response else pure (not_done (some plan) none response)

  -- `except Exception: raise SlTpAttachmentFailedError`
  abbrev pub attach_raw : ℕ → Outcome String → Action W String
  attach_raw ticket (raised e) = raise (sl_tp_attachment_failed ticket)
  attach_raw ticket (ok raw) = pure raw

  -- the retcode and a fresh read have to agree that the stops are attached
  abbrev pub confirm_stops : ℕ → OrderPlan F → TradeResponse F → Action W (Unit {0})
  unfolding verify_sl_tp_attached
  confirm_stops ticket plan response =
      raise_if (not (done response)) (sl_tp_attachment_failed ticket)
      >> (verify_sl_tp_attached ticket plan >>= λ attached.
          raise_if (not attached) (sl_tp_attachment_failed ticket))

  abbrev pub confirm_answer : ℕ → OrderPlan F → Outcome String → Action W (Unit {0})
  confirm_answer ticket plan answer = attach_raw ticket answer >>= λ raw.
      lift (parse_trade_response self.lib raw) >>= confirm_stops ticket plan

  -- the one attempt to attach the stops
  unfoldable pub attach_stops : ℕ → OrderPlan F → Action W (Unit {0})
  unfolding verify_sl_tp_attached
  attach_stops ticket plan =
      attempt (call_tool self.client "modify_position" (stops_arguments ticket plan))
      >>= confirm_answer ticket plan

  -- what follows the record of a market order
  unfoldable pub finish_market :
      OrderPlan F → TradeResponse F → ℕ → Bool → Action (Machine W F) (ExecutionResult F)
  unfolding attach_stops
  finish_market plan response ticket verified_open =
      outside (attach_stops ticket plan)
      >> (in_store (mark_sl_tp_attached ticket)
          >> pure (submitted plan response ticket verified_open))

  unfoldable pub protect_market :
      OrderPlan F → TradeResponse F → ℕ → Action (Machine W F) (ExecutionResult F)
  unfolding verify_position_present finish_market
  protect_market plan response ticket =
      outside (verify_position_present ticket plan.symbol) >>= finish_market plan response ticket

  unfoldable pub market_placed :
      OrderPlan F → TradeResponse F → ℕ → Action (Machine W F) (ExecutionResult F)
  unfolding protect_market
  market_placed plan response ticket =
      record_order plan response open_unprotected ticket >> protect_market plan response ticket

  unfoldable pub market_done :
      OrderPlan F → TradeResponse F → Action (Machine W F) (ExecutionResult F)
  unfolding market_placed
  market_done plan response = lift (order_ticket self.lib response) >>= market_placed plan response

  unfoldable pub submit_market : OrderPlan F → Action (Machine W F) (ExecutionResult F)
  unfolding market_done
  submit_market plan = do
    lift (validate_market_sl_tp plan)
    response ← outside (trade "place_market_order" (market_arguments plan))
    if done response then market_done plan response else pure (not_done (some plan) none response)

  abbrev pub submit_type : OrderType → OrderPlan F → Action (Machine W F) (ExecutionResult F)
  unfolding submit_limit submit_market
  submit_type market_order plan = submit_market plan
  submit_type limit_order plan = submit_limit plan

  -- `_gate` and then the posture, with which each of the three methods begins
  unfoldable pub prepare : Action (Machine W F) PostureCheck
  unfolding gate current_posture
  prepare = gate self >> current_posture self

  unfoldable pub submit : OrderPlan F → Action (Machine W F) (ExecutionResult F)
  unfolding prepare
  submit plan = prepare >>= λ check.
      raise_if (is_not_normal check.posture) execution_blocked >> submit_type plan.order_type plan
