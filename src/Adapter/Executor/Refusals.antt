-- ===== src/Adapter/Executor/Refusals.antt =====
-- Proofs about mt5_adapter/mcp_order_executor.py: what has to hold before a trading tool is called.
use mt5_mcp_trading_framewor.Common.{
  ℕ, ◌≡◌, ◌≢◌, ◌⊎◌, inl, inr, refl, sym, subst, Bool, true, false, Option, none, some, String,
  if◌then◌else◌, arith, eq_iff,
}
use mt5_mcp_trading_framewor.Common.Outcome.{Outcome, Error, ok, raised, not_demo_account}
use mt5_mcp_trading_framewor.Common.Action.{Action, ◌>>=◌, ◌>>◌, pure, bind_cases}
use mt5_mcp_trading_framewor.Float.{Float}
use mt5_mcp_trading_framewor.Domain.{
  OrderPlan, ExecutionResult, OrderType, market_order, limit_order,
}
use mt5_mcp_trading_framewor.Config.{require_demo_account_kind}
use mt5_mcp_trading_framewor.Adapter.Response.{TradeResponse, done}
use mt5_mcp_trading_framewor.Adapter.Executor.{McpOrderExecutor, Machine, outside}
use mt5_mcp_trading_framewor.Adapter.Executor.Posture.{gate}
use mt5_mcp_trading_framewor.Adapter.Executor.Placing.{validate_market_sl_tp, not_done}
use mt5_mcp_trading_framewor.Adapter.Executor.Submit.{
  is_not_normal, pending_arguments, market_arguments, trade, submit_limit, submit_market,
  submit_type, prepare, submit,
}
use mt5_mcp_trading_framewor.Adapter.Executor.Manage.{
  is_refused, check_volume, cancel_order, close_order, cancel, close_position,
}
use mt5_mcp_trading_framewor.Adapter.Executor.Reads.{ReadsKeep, prepare-Keeps}
use mt5_mcp_trading_framewor.Adapter.Executor.Submitted.{SubmitEnd, finish, respond_end}
use mt5_mcp_trading_framewor.Adapter.Executor.Permits.{
  Proceeds, passes, CanSubmit, CanTouch, result-Proceeds, passes-CanSubmit, passes-CanTouch,
  fails-CanSubmit,
}

module _ {W F : Type 0} ⦃f : Float F⦄ (self : McpOrderExecutor W F) where
  respond_cases :
      (kind : OrderType) (plan : OrderPlan F) (m : Action W (TradeResponse F)) (s : Machine W F)
      → SubmitEnd self kind plan s.1 (
          (outside m >>= λ response.
          if done response
          then finish self kind plan response
          else pure (not_done (some plan) none response))
            s)
  respond_cases kind plan m s =
      let rest = λ (response : TradeResponse F).
        if done response
        then finish self kind plan response
        else pure (not_done (some plan) none response) in
      elim (bind_cases (outside m) rest s) [
        | inl (e, at, end) ↦
            subst (SubmitEnd self kind plan s.1) (sym end) (inl (refl, inl (e, refl)))
        | inr (response, at, end) ↦
            subst (SubmitEnd self kind plan s.1) (sym end)
              (respond_end self kind plan response (outside m s).1)
      ]

  validated_end :
      (plan : OrderPlan F) (r : Outcome (Unit {0})) (s : Machine W F)
      → validate_market_sl_tp plan ≡ r
      → SubmitEnd self market_order plan s.1 (submit_market self plan s)
  unfolding submit_market
  validated_end plan (raised e) s at = rw at (inl (refl, inl (e, refl)))
  validated_end plan (ok tt) s at =
      rw at (
        respond_cases market_order plan (trade self "place_market_order" (market_arguments plan)) s)

  submit_type_end :
      (kind : OrderType) (plan : OrderPlan F) (s : Machine W F)
      → SubmitEnd self kind plan s.1 (submit_type self kind plan s)
  unfolding submit_limit submit_market
  submit_type_end market_order plan s = validated_end plan (validate_market_sl_tp plan) s refl
  submit_type_end limit_order plan s =
      respond_cases limit_order plan (trade self "place_pending_order" (pending_arguments plan)) s

  -- what the gate and the fresh reconciliation come to, and whether it allows an action
  abbrev may_submit : Machine W F → Bool
  may_submit s = passes (λ check. is_not_normal check.posture) (prepare self s).0

  abbrev may_touch : ℕ → Machine W F → Bool
  may_touch ticket s =
      passes (λ check. is_refused ticket check.posture check.report) (prepare self s).0

  submit-Proceeds :
      (plan : OrderPlan F) (s : Machine W F)
      → Proceeds
          (may_submit s)
          (prepare self s).1
          (submit_type self plan.order_type plan)
          (submit self plan s)
  unfolding submit
  submit-Proceeds plan s =
      result-Proceeds (submit_type self plan.order_type plan) (λ check. is_not_normal check.posture)
        (prepare self s).0 (prepare self s).1

  cancel-Proceeds :
      (ticket : ℕ) (s : Machine W F)
      → Proceeds
          (may_touch ticket s)
          (prepare self s).1
          (cancel_order self ticket)
          (cancel self ticket s)
  unfolding cancel
  cancel-Proceeds ticket s =
      result-Proceeds (cancel_order self ticket)
        (λ check. is_refused ticket check.posture check.report) (prepare self s).0
        (prepare self s).1

  abbrev pub close_action : ℕ → Option F → Action (Machine W F) (ExecutionResult F)
  close_action ticket volume = outside (check_volume self ticket volume) >> close_order self ticket

  close-Proceeds :
      (ticket : ℕ) (volume : Option F) (s : Machine W F)
      → Proceeds
          (may_touch ticket s)
          (prepare self s).1
          (close_action ticket volume)
          (close_position self ticket volume s)
  unfolding close_position
  close-Proceeds ticket volume s =
      result-Proceeds (close_action ticket volume)
        (λ check. is_refused ticket check.posture check.report) (prepare self s).0
        (prepare self s).1

  SubmitEnd-Proceeds :
      (plan : OrderPlan F) (go : Bool) (s : Machine W F)
      (end : Outcome (ExecutionResult F) × Machine W F)
      → Proceeds go s (submit_type self plan.order_type plan) end
      → ((go ≡ false) × ((e : Error) × (end ≡ (raised e, s))))
        ⊎ ((go ≡ true) × SubmitEnd self plan.order_type plan s.1 end)
  SubmitEnd-Proceeds plan false s end h = inl (refl, h)
  SubmitEnd-Proceeds plan true s end h = inr (
    refl,
    subst (SubmitEnd self plan.order_type plan s.1) (sym h)
        (submit_type_end plan.order_type plan s),
  )

  -- A submission reads the account afresh first. Unless that gives the posture NORMAL, the call raises
  -- and does nothing more. With the posture NORMAL, either the store stays as the reads left it, and
  -- the call raises or returns the refusal of a response that is not done; or a response is done and
  -- names a ticket, and then the order is in the store under that ticket, as OPEN or, where the stops
  -- of a market order are not confirmed, as OPEN_UNPROTECTED with an exception.
  pub submit_lem :
      (plan : OrderPlan F) (s : Machine W F)
      → ((¬ CanSubmit (prepare self s).0)
          × ((e : Error) × (submit self plan s ≡ (raised e, (prepare self s).1))))
        ⊎ (CanSubmit (prepare self s).0
            × SubmitEnd self plan.order_type plan (prepare self s).1.1 (submit self plan s))
  submit_lem plan s =
      elim (SubmitEnd-Proceeds plan (may_submit s) (prepare self s).1 (submit self plan s)
        (submit-Proceeds plan s)) [
          | inl (stop, end) ↦ inl (fails-CanSubmit (prepare self s).0 stop, end)
          | inr (go, end) ↦ inr (passes-CanSubmit (prepare self s).0 go, end)
        ]

  module _ (P : W → Type 0) (reads : ReadsKeep self P) where
    kept_or_allowed :
        (go : Bool) (s : Machine W F) (action : Action (Machine W F) (ExecutionResult F))
        (end : Outcome (ExecutionResult F) × Machine W F)
        → P s.0
        → Proceeds go s action end
        → {Allowed : Type 0} → (go ≡ true → Allowed)
        → P end.1.0 ⊎ Allowed
    kept_or_allowed false s action end p (e, h) allowed = inl (subst (λ x. P x.1.0) (sym h) p)
    kept_or_allowed true s action end p h allowed = inr (allowed refl)

    -- Whatever mere reads leave as it was, and so the orders and positions of the account, is left as
    -- it was by a submission unless the posture is NORMAL, and by a cancellation or a closing unless
    -- the posture is NORMAL or it is MANAGE_ONLY and the ticket has an open record.
    pub refused_calls :
        (plan : OrderPlan F) (ticket : ℕ) (volume : Option F) (s : Machine W F)
        → P s.0
        → (P (submit self plan s).1.0 ⊎ CanSubmit (prepare self s).0)
          × (P (cancel self ticket s).1.0 ⊎ CanTouch ticket (prepare self s).0)
          × (P (close_position self ticket volume s).1.0 ⊎ CanTouch ticket (prepare self s).0)
    refused_calls plan ticket volume s p =
        let s1 = (prepare self s).1 in
        let r = (prepare self s).0 in
        let p1 = prepare-Keeps self P reads s p in
        (
          kept_or_allowed (may_submit s) s1 (submit_type self plan.order_type plan)
              (submit self plan s) p1 (submit-Proceeds plan s) (passes-CanSubmit r),
          kept_or_allowed (may_touch ticket s) s1 (cancel_order self ticket) (cancel self ticket s)
              p1 (cancel-Proceeds ticket s) (passes-CanTouch ticket r),
          kept_or_allowed (may_touch ticket s) s1 (close_action ticket volume)
              (close_position self ticket volume s) p1 (close-Proceeds ticket volume s)
              (passes-CanTouch ticket r),
        )

  not_demo :
      (kind : Option String)
      → kind ≢ some "DEMO"
      → require_demo_account_kind kind ≡ raised not_demo_account
  unfolding require_demo_account_kind
  not_demo none h = refl
  not_demo (some k) h = ground (arith, eq_iff k "DEMO")

  -- With an account kind that is not exactly DEMO, none of the three methods does anything: each raises
  -- at once, with no call, no read and no write.
  pub refused_account :
      (plan : OrderPlan F) (ticket : ℕ) (volume : Option F) (s : Machine W F)
      → self.mt5_account_kind ≢ some "DEMO"
      → (submit self plan s ≡ (raised not_demo_account, s))
        × (cancel self ticket s ≡ (raised not_demo_account, s))
        × (close_position self ticket volume s ≡ (raised not_demo_account, s))
  unfolding submit cancel close_position prepare gate
  refused_account plan ticket volume s h =
      let e = not_demo self.mt5_account_kind h in (rw e refl, rw e refl, rw e refl)
