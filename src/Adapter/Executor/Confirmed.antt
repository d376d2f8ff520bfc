-- ===== src/Adapter/Executor/Confirmed.antt =====
-- Proofs about mt5_adapter/mcp_order_executor.py: what confirms that the stops are attached.
use mt5_mcp_trading_framewor.Common.{
  String, subst, ◌⊎◌, ℕ, zero, suc, ◌≡◌, inl, inr, refl, ap, ◌∙◌, Bool, true, false, not, none,
  some, if◌then◌else◌, Bool-cases,
}
use mt5_mcp_trading_framewor.Common.Outcome.{Outcome, Error, ok, raised, sl_tp_attachment_failed}
use mt5_mcp_trading_framewor.Common.Action.{
  bind_returned, raise_if_returned, Action, pure, lift, ◌>>=◌, ◌>>◌, raise_if, attempt,
}
use mt5_mcp_trading_framewor.Float.{Float}
use mt5_mcp_trading_framewor.Domain.{OrderPlan}
use mt5_mcp_trading_framewor.Mcp.Client.{call_tool}
use mt5_mcp_trading_framewor.Adapter.Response.{TradeResponse, parse_trade_response, done}
use mt5_mcp_trading_framewor.Adapter.Executor.{McpOrderExecutor, wait}
use mt5_mcp_trading_framewor.Adapter.Executor.Placing.{pause, stops_match, verify}
use mt5_mcp_trading_framewor.Adapter.Executor.Submit.{
  confirm_stops, confirm_answer, stops_arguments, verify_sl_tp_attached, attach_stops,
}

not-false : (b : Bool) → not b ≡ false → b ≡ true
not-false true h = refl
not-false false h = cc

raise_if_state : {S : Type 0} (b : Bool) (e : Error) (s : S) → (raise_if b e s).1 ≡ s
raise_if_state true e s = refl
raise_if_state false e s = refl

attempt_value :
    {S A : Type 0} (m : Action S A) (s : S) {r : Outcome A} → (attempt m s).0 ≡ ok r → (m s).0 ≡ r
attempt_value m s h = cc

module _ {W A : Type 0} (sleep : Action W (Unit {0})) (read : Action W A) (shows : A → Bool) where
  -- one of at most `n` reads from the state `w` on, with a wait between two of them, shows what is
  -- expected
  abbrev pub IsShown : ℕ → W → Type 0
  IsShown zero w = ⊥
  IsShown (suc n) w =
      ((found : A) × ((read w).0 ≡ ok found) × (shows found ≡ true))
      ⊎ IsShown n (pause sleep n (read w).1).1

  verify-true : (n : ℕ) (w : W) → (verify n sleep read shows w).0 ≡ ok true → IsShown n w
  unfolding verify
  verify-true zero w h = cc
  verify-true (suc n) w h =
      let (found, got, rest) =
        bind_returned read
          (λ a. if shows a then pure true else (pause sleep n >> verify n sleep read shows)) w h in
      elim (Bool-cases (shows found)) [
        | inl shown ↦ inl (found, got, shown)
        | inr missing ↦
            let (u, paused, again) =
              bind_returned (pause sleep n) (λ _. verify n sleep read shows) (read w).1
                (rw missing at rest) in
            inr (verify-true n (pause sleep n (read w).1).1 again)
      ]

module _ {W F : Type 0} ⦃f : Float F⦄ (self : McpOrderExecutor W F) where
  -- the state that the call of `modify_position` with the stops of the plan leaves
  abbrev pub modified : ℕ → OrderPlan F → W → Outcome String × W
  modified t plan w = call_tool self.client "modify_position" (stops_arguments t plan) w

  -- Called in the state `w`, `modify_position` returns a response that is done, and after it one of at
  -- most three reads of the positions shows the one with this ticket with the stops of the plan.
  abbrev pub IsConfirmed : ℕ → OrderPlan F → W → Type 0
  IsConfirmed t plan w =
      (raw : String) × (response : TradeResponse F) × ((modified t plan w).0 ≡ ok raw)
      × (parse_trade_response self.lib raw ≡ ok response)
      × (done response ≡ true)
      × IsShown (wait self) (self.account.get_positions (some plan.symbol) none)
          (λ positions. stops_match t plan.sl plan.tp positions) 3 (modified t plan w).1

  confirm_stops_returned :
      (t : ℕ) (plan : OrderPlan F) (response : TradeResponse F) (w : W)
      → (confirm_stops self t plan response w).0 ≡ ok tt
      → (done response ≡ true)
        × IsShown
            (wait self)
            (self.account.get_positions (some plan.symbol) none)
            (λ positions. stops_match t plan.sl plan.tp positions)
            3
            w
  unfolding verify_sl_tp_attached
  confirm_stops_returned t plan response w h =
      let failed = sl_tp_attachment_failed t in
      let (_, e, h1) =
        bind_returned (raise_if (not (done response)) failed)
          (λ _. verify_sl_tp_attached self t plan >>= λ attached. raise_if (not attached) failed) w
          h in
      let w1 = (raise_if (not (done response)) failed w).1 in
      let (attached, e2, h2) =
        bind_returned (verify_sl_tp_attached self t plan)
          (λ attached. raise_if (not attached) failed) w1 h1 in
      (
        not-false (done response) (raise_if_returned (not (done response)) failed w e),
        subst
            (IsShown (wait self) (self.account.get_positions (some plan.symbol) none)
              (λ positions. stops_match t plan.sl plan.tp positions) 3)
            (raise_if_state (not (done response)) failed w)
            (verify-true (wait self) (self.account.get_positions (some plan.symbol) none)
              (λ positions. stops_match t plan.sl plan.tp positions) 3 w1
              (e2
                ∙ ap (λ b. ok b)
                    (not-false attached (
                      raise_if_returned (not attached) failed
                        (verify_sl_tp_attached self t plan w1).1 h2)))),
      )

  attached_answer :
      (t : ℕ) (plan : OrderPlan F) (w : W) (answer : Outcome String)
      → (modified t plan w).0 ≡ answer
      → (confirm_answer self t plan answer (modified t plan w).1).0 ≡ ok tt
      → IsConfirmed t plan w
  unfolding verify_sl_tp_attached
  attached_answer t plan w (raised e) at h = cc
  attached_answer t plan w (ok raw) at h =
      let (response, parsed, rest) =
        bind_returned (lift (parse_trade_response self.lib raw)) (confirm_stops self t plan)
          (modified t plan w).1 h in
      let (is_done, shown) = confirm_stops_returned t plan response (modified t plan w).1 rest in
      (raw, response, at, parsed, is_done, shown)

  pub attach_stops_returned :
      (t : ℕ) (plan : OrderPlan F) (w : W)
      → (attach_stops self t plan w).0 ≡ ok tt
      → IsConfirmed t plan w
  unfolding attach_stops verify_sl_tp_attached
  attach_stops_returned t plan w h =
      let (answer, e1, h1) =
        bind_returned (attempt (call_tool self.client "modify_position" (stops_arguments t plan)))
          (confirm_answer self t plan) w h in
      let w1 = (call_tool self.client "modify_position" (stops_arguments t plan) w).1 in
      attached_answer t plan w answer
        (attempt_value (call_tool self.client "modify_position" (stops_arguments t plan)) w e1) h1
