-- ===== src/Adapter/Executor/Submitted.antt =====
-- Proofs about mt5_adapter/mcp_order_executor.py: how a submission can end.
use mt5_mcp_trading_framewor.Common.{
  ℕ, ◌≡◌, ◌⊎◌, inl, inr, refl, sym, subst, Bool, true, false, none, some, if◌then◌else◌, Bool-cases,
}
use mt5_mcp_trading_framewor.Common.Outcome.{Outcome-cases, Outcome, Error, ok, raised}
use mt5_mcp_trading_framewor.Common.Action.{bind_ok, bind_cases, Action, pure, lift, bind_cases}
use mt5_mcp_trading_framewor.Float.{Float}
use mt5_mcp_trading_framewor.Domain.{
  OrderPlan, ExecutionResult, OrderType, market_order, limit_order,
}
use mt5_mcp_trading_framewor.State.Models.{open_status}
use mt5_mcp_trading_framewor.State.Store.{Directory, Submission, record_submission}
use mt5_mcp_trading_framewor.State.Store.Laws.{record_submission_lem}
use mt5_mcp_trading_framewor.Adapter.Response.{TradeResponse, done}
use mt5_mcp_trading_framewor.Adapter.Executor.{McpOrderExecutor, Machine, outside}
use mt5_mcp_trading_framewor.Adapter.Executor.Placing.{
  order_ticket, submission_of, not_done, submitted,
}
use mt5_mcp_trading_framewor.Adapter.Executor.Submit.{
  market_done, limit_done, limit_placed, confirm_limit, verify_present, record_order, limit_placed,
}
use mt5_mcp_trading_framewor.Adapter.Executor.Market.{
  Records, MarketEnd, before_stops, market_done_lem,
}

module _ {W F : Type 0} ⦃f : Float F⦄ (self : McpOrderExecutor W F) where
  -- the end of a limit order that the broker has executed
  abbrev pub LimitEnd :
      OrderPlan F
      → TradeResponse F
      → Submission F
      → Directory F
      → Outcome (ExecutionResult F) × Machine W F
      → Type 0
  LimitEnd plan response sub d end =
      (((e : Error) × (end.0 ≡ raised e))
        ⊎ ((v : Bool) × (end.0 ≡ ok (submitted plan response sub.ticket v))))
      × Records self sub open_status d end.1.1

  confirm_limit_end :
      (plan : OrderPlan F) (response : TradeResponse F) (sub : Submission F) (d : Directory F)
      (s : Machine W F)
      → Records self sub open_status d s.1
      → LimitEnd plan response sub d (confirm_limit self plan response sub.ticket s)
  unfolding confirm_limit
  confirm_limit_end plan response sub d s h =
      let check = outside (verify_present self sub.ticket plan.symbol) in
      elim (bind_cases check (λ v. pure (submitted plan response sub.ticket v)) s) [
        | inl (e, at, end) ↦ subst (LimitEnd plan response sub d) (sym end) (inl (e, refl), h)
        | inr (v, at, end) ↦ subst (LimitEnd plan response sub d) (sym end) (inr (v, refl), h)
      ]

  -- Once the broker's response to a limit order is done and names a ticket, the order is in the store
  -- as OPEN under that ticket with what was submitted, and no other ticket's record has changed, whether
  -- the call then returns or raises.
  pub limit_done_lem :
      (plan : OrderPlan F) (response : TradeResponse F) (ticket : ℕ) (s : Machine W F)
      → order_ticket self.lib response ≡ ok ticket
      → LimitEnd plan response
          (submission_of plan response ticket (self.now s.0).0)
          s.1
          (limit_done self plan response s)
  unfolding limit_done limit_placed submission_of record_submission
  limit_done_lem plan response ticket s h =
      let sub = submission_of plan response ticket (self.now s.0).0 in
      let placed = (record_order self plan response open_status ticket s).1 in
      subst (LimitEnd plan response sub s.1)
        (sym
          (bind_ok (lift (order_ticket self.lib response)) (limit_placed self plan response) s h))
        (confirm_limit_end plan response sub s.1 placed
          (λ u. record_submission_lem sub open_status u s.1))

  -- what a placed order of this type leaves, of which `w` is the state in which its response came
  abbrev pub PlacedEnd :
      OrderType
      → OrderPlan F
      → TradeResponse F
      → Submission F
      → Directory F
      → W
      → Outcome (ExecutionResult F) × Machine W F
      → Type 0
  PlacedEnd market_order plan response sub d w =
      MarketEnd self plan response sub d (before_stops self plan sub.ticket w)
  PlacedEnd limit_order plan response sub d w = LimitEnd plan response sub d

  -- no order was placed as far as the response shows it, or an order was placed
  abbrev pub NotPlaced :
      OrderPlan F → Directory F → Outcome (ExecutionResult F) × Machine W F → Type 0
  NotPlaced plan d end =
      (end.1.1 ≡ d)
      × (((e : Error) × (end.0 ≡ raised e))
          ⊎ ((response : TradeResponse F) × (done response ≡ false)
              × (end.0 ≡ ok (not_done (some plan) none response))))

  abbrev pub SubmitEnd :
      OrderType → OrderPlan F → Directory F → Outcome (ExecutionResult F) × Machine W F → Type 0
  SubmitEnd kind plan d end =
      NotPlaced plan d end
      ⊎ ((response : TradeResponse F) × (ticket : ℕ) × (w : W) × (done response ≡ true)
          × (order_ticket self.lib response ≡ ok ticket)
          × PlacedEnd kind plan response (submission_of plan response ticket (self.now w).0) d w
              end)

  abbrev pub finish :
      OrderType → OrderPlan F → TradeResponse F → Action (Machine W F) (ExecutionResult F)
  finish market_order = market_done self
  finish limit_order = limit_done self

  finish_placed :
      (kind : OrderType) (plan : OrderPlan F) (response : TradeResponse F) (ticket : ℕ)
      (s : Machine W F)
      → order_ticket self.lib response ≡ ok ticket
      → PlacedEnd kind plan response
          (submission_of plan response ticket (self.now s.0).0)
          s.1
          s.0
          (finish kind plan response s)
  unfolding submission_of
  finish_placed market_order = market_done_lem self
  finish_placed limit_order = limit_done_lem

  finish_unreadable :
      (kind : OrderType) (plan : OrderPlan F) (response : TradeResponse F) (e : Error)
      (s : Machine W F)
      → order_ticket self.lib response ≡ raised e
      → finish kind plan response s ≡ (raised e, s)
  unfolding market_done limit_done
  finish_unreadable market_order plan response e s h = rw h refl
  finish_unreadable limit_order plan response e s h = rw h refl

  pub respond_end :
      (kind : OrderType) (plan : OrderPlan F) (response : TradeResponse F) (s : Machine W F)
      → SubmitEnd kind plan s.1 (
          (if done response
              then finish kind plan response
              else pure (not_done (some plan) none response))
            s)
  respond_end kind plan response s = elim (Bool-cases (done response)) [
    | inr not_yet ↦ rw not_yet (inl (refl, inr (response, not_yet, refl)))
    | inl yes' ↦ rw yes' (elim (Outcome-cases (order_ticket self.lib response)) [
      | inl (e, bad) ↦ rw (finish_unreadable kind plan response e s bad) (inl (refl, inl (e, refl)))
      | inr (t, good) ↦
          inr (response, t, s.0, yes', good, finish_placed kind plan response t s good)
    ])
  ]
