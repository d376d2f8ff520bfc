-- ===== src/Adapter/Executor/Market.antt =====
-- Proofs about mt5_adapter/mcp_order_executor.py: what a market order leaves in the store.
use mt5_mcp_trading_framewor.Common.{
  ℕ, ◌≡◌, ◌⊎◌, inl, inr, refl, sym, ◌∙◌, subst, Bool, some, if◌then◌else◌, ◌==◌, arith,
}
use mt5_mcp_trading_framewor.Common.Outcome.{Outcome, Error, ok, raised}
use mt5_mcp_trading_framewor.Common.Action.{bind_ok, bind_cases, pure, lift, ◌>>◌, bind_cases}
use mt5_mcp_trading_framewor.Float.{Float}
use mt5_mcp_trading_framewor.Domain.{OrderPlan, ExecutionResult}
use mt5_mcp_trading_framewor.State.Models.{
  LocalOrderRecord, OrderRecordStatus, open_status, open_unprotected,
}
use mt5_mcp_trading_framewor.State.Store.{
  Directory, Submission, submitted_record, record_submission, mark_sl_tp_attached, lookup,
}
use mt5_mcp_trading_framewor.State.Store.Laws.{record_submission_lem, mark_sl_tp_attached_found}
use mt5_mcp_trading_framewor.Adapter.Response.{TradeResponse}
use mt5_mcp_trading_framewor.Adapter.Executor.{McpOrderExecutor, Machine, outside, in_store}
use mt5_mcp_trading_framewor.Adapter.Executor.Placing.{order_ticket, submission_of, submitted}
use mt5_mcp_trading_framewor.Adapter.Executor.Submit.{
  market_done, market_placed, protect_market, finish_market, verify_position_present, record_order,
  attach_stops, market_placed,
}
use mt5_mcp_trading_framewor.Adapter.Executor.Confirmed.{IsConfirmed, attach_stops_returned}

module _ {W F : Type 0} ⦃f : Float F⦄ (self : McpOrderExecutor W F) where
  -- the later directory holds the submission under its ticket, and the other tickets' records as before
  abbrev pub Records : Submission F → OrderRecordStatus → Directory F → Directory F → Type 0
  Records sub status d d' =
      (u : ℕ)
      → lookup u d'
        ≡ (if sub.ticket == u then ok (some (submitted_record sub status)) else lookup u d)

  mark_returns :
      (t : ℕ) (d : Directory F) (r : LocalOrderRecord F)
      → lookup t d ≡ ok (some r)
      → (mark_sl_tp_attached t d).0 ≡ ok tt
  unfolding mark_sl_tp_attached lookup
  mark_returns t d r h = rw h refl

  mark-Records :
      (sub : Submission F) (d d' : Directory F)
      → Records sub open_unprotected d d'
      → ((mark_sl_tp_attached sub.ticket d').0 ≡ ok tt)
        × Records sub open_status d (mark_sl_tp_attached sub.ticket d').1
  mark-Records sub d d' h =
      let found : lookup sub.ticket d' ≡ ok (some (submitted_record sub open_unprotected)) =
        ground (arith, h sub.ticket) in
      (
        mark_returns sub.ticket d' _ found,
        λ u. ground (arith, h u, mark_sl_tp_attached_found sub.ticket u d' _ found),
      )

  -- the two ends of a market order that the broker has executed, of which `w` is the state in which
  -- `modify_position` is called
  abbrev pub MarketEnd :
      OrderPlan F
      → TradeResponse F
      → Submission F
      → Directory F
      → W
      → Outcome (ExecutionResult F) × Machine W F
      → Type 0
  MarketEnd plan response sub d w end =
      (((e : Error) × (end.0 ≡ raised e)) × Records sub open_unprotected d end.1.1)
      ⊎ (((v : Bool) × (end.0 ≡ ok (submitted plan response sub.ticket v)))
          × Records sub open_status d end.1.1
          × IsConfirmed self sub.ticket plan w)

  module _ (plan : OrderPlan F) (response : TradeResponse F) (sub : Submission F)
      (d : Directory F) where
    finish_market_end :
        (v : Bool) (s : Machine W F)
        → Records sub open_unprotected d s.1
        → MarketEnd plan response sub d s.0 (finish_market self plan response sub.ticket v s)
    unfolding finish_market
    finish_market_end v s h =
        let attach = outside (attach_stops self sub.ticket plan) in
        let mark = in_store (mark_sl_tp_attached sub.ticket) in
        let result = pure (submitted plan response sub.ticket v) in
        let after = mark-Records sub d s.1 h in
        elim (bind_cases attach (λ _. mark >> result) s) [
          | inl (e, at, end) ↦
              subst (MarketEnd plan response sub d s.0) (sym end) (inl ((e, refl), h))
          | inr (_, at, end) ↦
              subst (MarketEnd plan response sub d s.0)
                (sym (end ∙ bind_ok mark (λ _. result) (attach s).1 after.0))
                (inr ((v, refl), after.1, attach_stops_returned self sub.ticket plan s.0 at))
        ]

    protect_market_end :
        (s : Machine W F)
        → Records sub open_unprotected d s.1
        → MarketEnd plan response sub d
            (verify_position_present self sub.ticket plan.symbol s.0).1
            (protect_market self plan response sub.ticket s)
    unfolding protect_market
    protect_market_end s h =
        let check = outside (verify_position_present self sub.ticket plan.symbol) in
        let End = MarketEnd plan response sub d (check s).1.0 in
        elim (bind_cases check (finish_market self plan response sub.ticket) s) [
          | inl (e, at, end) ↦ subst End (sym end) (inl ((e, refl), h))
          | inr (v, at, end) ↦ subst End (sym end) (finish_market_end v (check s).1 h)
        ]

  -- the state in which a market order attaches its stops: the clock was read for the record, and the
  -- new position was looked for
  abbrev pub before_stops : OrderPlan F → ℕ → W → W
  unfolding verify_position_present
  before_stops plan ticket w = (verify_position_present self ticket plan.symbol (self.now w).1).1

  -- Once the broker's response to a market order is done and names a ticket, the order is in the store
  -- under that ticket with what was submitted, and no other ticket's record has changed, whatever
  -- happens next: if the call raises, the record is OPEN_UNPROTECTED. If it returns, the record is
  -- OPEN, the response of this call's `modify_position` with the plan's stops is done, and one of the
  -- at most three reads of the positions that follow it shows the position with the plan's stops.
  pub market_done_lem :
      (plan : OrderPlan F) (response : TradeResponse F) (ticket : ℕ) (s : Machine W F)
      → order_ticket self.lib response ≡ ok ticket
      → MarketEnd plan response
          (submission_of plan response ticket (self.now s.0).0)
          s.1
          (before_stops plan ticket s.0)
          (market_done self plan response s)
  unfolding market_done market_placed submission_of record_submission
  market_done_lem plan response ticket s h =
      let sub = submission_of plan response ticket (self.now s.0).0 in
      let placed = (record_order self plan response open_unprotected ticket s).1 in
      subst (MarketEnd plan response sub s.1 (before_stops plan ticket s.0))
        (sym
          (bind_ok (lift (order_ticket self.lib response)) (market_placed self plan response) s h))
        (protect_market_end plan response sub s.1 placed
          (λ u. record_submission_lem sub open_unprotected u s.1))
