-- ===== src/Adapter/Executor/Manage.antt =====
-- `cancel` and `close_position`.
use mt5_mcp_trading_framewor.Common.{
  ℕ, Bool, true, false, not, ◌||◌, Option, none, some, List, [], ◌∷◌, if◌then◌else◌, ◌==◌, any,
}
use mt5_mcp_trading_framewor.Common.Int.{pos}
use mt5_mcp_trading_framewor.Common.Outcome.{
  Outcome, ok, raised, execution_blocked, not_implemented,
}
use mt5_mcp_trading_framewor.Common.Action.{Action, ◌>>=◌, ◌>>◌, pure, lift, raise_if}
use mt5_mcp_trading_framewor.Float.{Float, ◌⊏◌, ◌⊖◌}
use mt5_mcp_trading_framewor.Domain.{ExecutionResult, PositionState, Time}
use mt5_mcp_trading_framewor.State.Models.{ReconciliationReport}
use mt5_mcp_trading_framewor.State.Reconcile.{ExecutionPosture, normal, manage_only, blocked, mem}
use mt5_mcp_trading_framewor.State.Store.{Directory, record_cancelled, record_closed}
use mt5_mcp_trading_framewor.Mcp.Client.{integer}
use mt5_mcp_trading_framewor.Adapter.Response.{TradeResponse, done}
use mt5_mcp_trading_framewor.Adapter.Executor.{McpOrderExecutor, Machine, outside, in_store, clock}
use mt5_mcp_trading_framewor.Adapter.Executor.Posture.{PostureCheck}
use mt5_mcp_trading_framewor.Adapter.Executor.Placing.{
  retcode_or, not_done, closing_deal, response_number,
}
use mt5_mcp_trading_framewor.Adapter.Executor.Submit.{prepare, trade}

abbrev pub is_attributed : ℕ → Option ReconciliationReport → Bool
is_attributed ticket none = false
is_attributed ticket (some report) = mem ticket report.matched || mem ticket report.local_only

-- whether a ticket may be touched in this posture
abbrev pub is_refused : ℕ → ExecutionPosture → Option ReconciliationReport → Bool
is_refused ticket blocked report = true
is_refused ticket manage_only report = not (is_attributed ticket report)
is_refused ticket normal report = false

abbrev pub refuse : {S : Type 0} → ℕ → PostureCheck → Action S (Unit {0})
refuse ticket check = raise_if (is_refused ticket check.posture check.report) execution_blocked

module _ {F : Type 0} where
  -- the first position with this ticket
  abbrev pub position_with : ℕ → List (PositionState F) → Option (PositionState F)
  position_with ticket [] = none
  position_with ticket (p ∷ ps) = if p.ticket == ticket then some p else position_with ticket ps

module _ {F : Type 0} ⦃f : Float F⦄ where
  abbrev pub cancelled_result : ℕ → TradeResponse F → Bool → ExecutionResult F
  cancelled_result ticket response verified = record {
    order_plan = none;
    success = true;
    retcode = retcode_or response.retcode;
    ticket = some ticket;
    deal = none;
    executed_price = none;
    executed_volume = none;
    broker_comment = response.tool_message;
    verified = verified;
  }

  abbrev pub closed_result : ℕ → TradeResponse F → Bool → ExecutionResult F
  closed_result ticket response verified = record (cancelled_result ticket response verified) {
    deal = closing_deal response;
    executed_price = response_number "price" response;
  }

  abbrev check_full : F → Option (PositionState F) → Outcome (Unit {0})
  check_full volume none = raised execution_blocked
  check_full volume (some current) =
      if f.ratio 1 1_000_000_000 ⊏ f.abs (current.volume ⊖ volume)
      then raised not_implemented
      else ok tt

module _ {W F : Type 0} ⦃f : Float F⦄ (self : McpOrderExecutor W F) where
  abbrev pub still_ordered : ℕ → Action W Bool
  still_ordered ticket =
      self.account.get_orders none none >>= λ orders. pure (any (λ o. o.ticket == ticket) orders)

  abbrev pub still_open : ℕ → Action W Bool
  still_open ticket = self.account.get_positions none none >>= λ positions.
      pure (any (λ p. p.ticket == ticket) positions)

  -- after a response that is done: a last read, the record's end in the store, and the result
  unfoldable pub settle :
      Action W Bool
      → (Time → Action (Directory F) (Unit {0}))
      → (Bool → ExecutionResult F)
      → Action (Machine W F) (ExecutionResult F)
  settle still_present write result = outside still_present >>= λ present.
      outside (clock self) >>= λ closed_at.
      in_store (write closed_at) >> pure (result (not present))

  unfoldable pub cancel_done : ℕ → TradeResponse F → Action (Machine W F) (ExecutionResult F)
  unfolding record_cancelled settle
  cancel_done ticket response =
      settle (still_ordered ticket)
        (record_cancelled ticket "cancel confirmed via McpOrderExecutor.cancel()")
        (cancelled_result ticket response)

  abbrev pub cancel_response : ℕ → TradeResponse F → Action (Machine W F) (ExecutionResult F)
  unfolding cancel_done
  cancel_response ticket response =
      if done response
      then cancel_done ticket response
      else pure (not_done none (some ticket) response)

  -- the call of the tool and what follows it
  unfoldable pub cancel_order : ℕ → Action (Machine W F) (ExecutionResult F)
  unfolding cancel_done
  cancel_order ticket =
      outside (trade self "cancel_pending_order" (("id", integer (pos ticket)) ∷ []))
      >>= cancel_response ticket

  unfoldable pub cancel : ℕ → Action (Machine W F) (ExecutionResult F)
  unfolding prepare cancel_order
  cancel ticket = prepare self >>= λ check. refuse ticket check >> cancel_order ticket

  -- `if volume is not None`
  unfoldable pub check_volume : ℕ → Option F → Action W (Unit {0})
  check_volume ticket none = pure tt
  check_volume ticket (some volume) = self.account.get_positions none none >>= λ positions.
      lift (check_full volume (position_with ticket positions))

  unfoldable pub close_done : ℕ → TradeResponse F → Action (Machine W F) (ExecutionResult F)
  unfolding record_closed settle
  close_done ticket response =
      settle (still_open ticket)
        (record_closed ticket "close confirmed via McpOrderExecutor.close_position()")
        (closed_result ticket response)

  abbrev pub close_response : ℕ → TradeResponse F → Action (Machine W F) (ExecutionResult F)
  unfolding close_done
  close_response ticket response =
      if done response
      then close_done ticket response
      else pure (not_done none (some ticket) response)

  unfoldable pub close_order : ℕ → Action (Machine W F) (ExecutionResult F)
  unfolding close_done
  close_order ticket =
      outside (trade self "close_position" (("id", integer (pos ticket)) ∷ []))
      >>= close_response ticket

  unfoldable pub close_position : ℕ → Option F → Action (Machine W F) (ExecutionResult F)
  unfolding prepare check_volume close_order
  close_position ticket volume = prepare self >>= λ check.
      refuse ticket check >> (outside (check_volume ticket volume) >> close_order ticket)
