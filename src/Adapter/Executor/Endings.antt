-- ===== src/Adapter/Executor/Endings.antt =====
-- Proofs about mt5_adapter/mcp_order_executor.py: what a cancellation and a closing leave in the store.
use mt5_mcp_trading_framewor.Common.{
  ℕ, ◌≡◌, ◌⊎◌, inl, inr, refl, sym, ◌∙◌, subst, Bool, true, false, not, none, some, [], ◌∷◌,
  if◌then◌else◌, ◌==◌, Bool-cases,
}
use mt5_mcp_trading_framewor.Common.Int.{pos}
use mt5_mcp_trading_framewor.Common.Outcome.{Outcome, Error, ok, raised}
use mt5_mcp_trading_framewor.Common.Action.{Action, pure, ◌>>=◌, ◌>>◌, bind_cases, bind_ok}
use mt5_mcp_trading_framewor.Float.{Float}
use mt5_mcp_trading_framewor.Domain.{ExecutionResult, Time}
use mt5_mcp_trading_framewor.State.Models.{
  LocalOrderRecord, OrderRecordStatus, cancelled, closed, CloseReason,
}
use mt5_mcp_trading_framewor.State.Store.{
  Directory, transition, record_cancelled, record_closed, end_with, lookup,
}
use mt5_mcp_trading_framewor.State.Store.Laws.{transition_found}
use mt5_mcp_trading_framewor.Mcp.Client.{integer}
use mt5_mcp_trading_framewor.Adapter.Response.{TradeResponse, done}
use mt5_mcp_trading_framewor.Adapter.Executor.{McpOrderExecutor, Machine, outside, in_store, clock}
use mt5_mcp_trading_framewor.Adapter.Executor.Placing.{not_done}
use mt5_mcp_trading_framewor.Adapter.Executor.Submit.{trade}
use mt5_mcp_trading_framewor.Adapter.Executor.Manage.{
  cancelled_result, closed_result, still_ordered, still_open, settle, cancel_done, cancel_order,
  close_done, close_order,
}

module _ {W F : Type 0} ⦃f : Float F⦄ (self : McpOrderExecutor W F) where
  module _ (ticket : ℕ) (status : OrderRecordStatus) (reason : CloseReason) (d : Directory F)
      (r : LocalOrderRecord F) where
    -- nothing is written, and the call raises or returns a refusal; or the ticket's record alone ends
    -- at some time with the status and the reason, and the call returns the result of a response that
    -- is done
    abbrev pub ManageEnd :
        (TradeResponse F → Bool → ExecutionResult F)
        → Outcome (ExecutionResult F) × Machine W F
        → Type 0
    ManageEnd result end =
        ((end.1.1 ≡ d)
          × (((e : Error) × (end.0 ≡ raised e))
              ⊎ ((response : TradeResponse F) × (done response ≡ false)
                  × (end.0 ≡ ok (not_done none (some ticket) response)))))
        ⊎ ((response : TradeResponse F) × (at : Time) × (v : Bool) × (done response ≡ true)
            × (end.0 ≡ ok (result response v))
            × ((u : ℕ)
                → lookup u end.1.1
                  ≡ (if ticket == u then ok (some (end_with status reason at r)) else lookup u d)))

    transition_returns :
        (at : Time)
        → lookup ticket d ≡ ok (some r)
        → (transition ticket status reason at d).0 ≡ ok tt
    unfolding transition lookup
    transition_returns at h = rw h refl

    module _ (result : TradeResponse F → Bool → ExecutionResult F)
        (found : lookup ticket d ≡ ok (some r)) where
      settle_end :
          (still : Action W Bool) (response : TradeResponse F) (w : W)
          → done response ≡ true
          → ManageEnd result
              (settle self still (transition ticket status reason) (result response) (w, d))
      unfolding settle
      settle_end still response w is_done =
          let finish = λ (present : Bool). pure {S = Machine W F} (result response (not present)) in
          let write = λ (at : Time). in_store {W = W} (transition ticket status reason at) in
          let w1 = (still w).1 in
          let at = (self.now w1).0 in
          elim (bind_cases (outside still)
            (λ present. outside (clock self) >>= λ t. write t >> finish present) (w, d)) [
              | inl (e, _, end) ↦ subst (ManageEnd result) (sym end) (inl (refl, inl (e, refl)))
              | inr (present, _, end) ↦
                  subst (ManageEnd result)
                    (sym (
                      end
                      ∙ bind_ok (write at) (λ _. finish present) ((self.now w1).1, d)
                          (transition_returns at found)))
                    (inr (
                      response,
                      at,
                      not present,
                      is_done,
                      refl,
                      λ u. transition_found ticket u status reason at d r found,
                    ))
            ]

      respond_end :
          (still : Action W Bool) (m : Action W (TradeResponse F)) (w : W)
          → ManageEnd result (
              (outside m >>= λ response.
              if done response
              then settle self still (transition ticket status reason) (result response)
              else pure (not_done none (some ticket) response))
                (w, d))
      respond_end still m w =
          let finish = λ (response : TradeResponse F).
            if done response
            then settle self still (transition ticket status reason) (result response)
            else pure (not_done none (some ticket) response) in
          elim (bind_cases (outside m) finish (w, d)) [
            | inl (e, _, end) ↦ subst (ManageEnd result) (sym end) (inl (refl, inl (e, refl)))
            | inr (response, _, end) ↦
                subst (ManageEnd result) (sym end) (elim (Bool-cases (done response)) [
                  | inr not_yet ↦ rw not_yet (inl (refl, inr (response, not_yet, refl)))
                  | inl is_done ↦ rw is_done (settle_end still response (m w).1 is_done)
                ])
          ]

  -- What follows the reads of a cancellation, for a ticket that has a record: the store is left as it is
  -- and the call raises or returns the refusal of a response that is not done; or the response is done,
  -- the ticket's record becomes CANCELLED with the reason and a time, no other field of it and no other
  -- ticket's record changes, and the call returns a success.
  pub cancel_order_lem :
      (ticket : ℕ) (r : LocalOrderRecord F) (w : W) (d : Directory F)
      → lookup ticket d ≡ ok (some r)
      → ManageEnd ticket cancelled "cancel confirmed via McpOrderExecutor.cancel()" d r
          (cancelled_result ticket)
          (cancel_order self ticket (w, d))
  unfolding cancel_order cancel_done record_cancelled
  cancel_order_lem ticket r w d found =
      respond_end ticket cancelled "cancel confirmed via McpOrderExecutor.cancel()" d r
        (cancelled_result ticket) found (still_ordered self ticket)
        (trade self "cancel_pending_order" (("id", integer (pos ticket)) ∷ [])) w

  -- What follows the checks of a closing, for a ticket that has a record: the store is left as it is
  -- and the call raises or returns the refusal of a response that is not done; or the response is done,
  -- the ticket's record becomes CLOSED with the reason and a time, no other field of it and no other
  -- ticket's record changes, and the call returns a success.
  pub close_order_lem :
      (ticket : ℕ) (r : LocalOrderRecord F) (w : W) (d : Directory F)
      → lookup ticket d ≡ ok (some r)
      → ManageEnd ticket closed "close confirmed via McpOrderExecutor.close_position()" d r
          (closed_result ticket)
          (close_order self ticket (w, d))
  unfolding close_order close_done record_closed
  close_order_lem ticket r w d found =
      respond_end ticket closed "close confirmed via McpOrderExecutor.close_position()" d r
        (closed_result ticket) found (still_open self ticket)
        (trade self "close_position" (("id", integer (pos ticket)) ∷ [])) w
