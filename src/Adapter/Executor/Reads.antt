-- ===== src/Adapter/Executor/Reads.antt =====
-- Proofs about mt5_adapter/mcp_order_executor.py: what the reads before an action leave as it was.
use mt5_mcp_trading_framewor.Common.{
  arith, ℕ, ◌-◌, Option, none, some, List, [], ◌∷◌, String, if◌then◌else◌, not,
}
use mt5_mcp_trading_framewor.Common.Int.{pos, negsuc}
use mt5_mcp_trading_framewor.Common.Clock.{minus_delta}
use mt5_mcp_trading_framewor.Common.Outcome.{Outcome, ok, raised, not_demo_account}
use mt5_mcp_trading_framewor.Common.Action.{
  Action, pure, lift, ◌>>=◌, raise_if, attempt, Preserves, >>=-Preserves, raise_if-Preserves,
  lift-Preserves, if-Preserves, attempt-Preserves,
}
use mt5_mcp_trading_framewor.Float.{Float}
use mt5_mcp_trading_framewor.Domain.{PositionState, OrderState}
use mt5_mcp_trading_framewor.Config.{require_demo_account_kind}
use mt5_mcp_trading_framewor.State.Models.{LocalOrderRecord, ReconciliationReport}
use mt5_mcp_trading_framewor.State.Reconcile.{reconcile, determine_posture}
use mt5_mcp_trading_framewor.State.SlTpArtifact.{SlTpArtifactEvidence, SlTpArtifactClassification}
use mt5_mcp_trading_framewor.State.Store.{Directory, all_open, all_records, record_closed}
use mt5_mcp_trading_framewor.Mcp.Client.{call_tool, Arguments}
use mt5_mcp_trading_framewor.Adapter.Deals.{deal_arguments, get_deals, read_deals}
use mt5_mcp_trading_framewor.Adapter.Executor.{McpOrderExecutor, Machine, outside, in_store, clock}
use mt5_mcp_trading_framewor.Adapter.Executor.Posture.{
  is_demo, one_day, are_both, require_demo_account, informational, gate, deals_between,
  deals_around, fetch_deals, classify_deals, gather_with, gather, close_explained, apply_evidence,
  explain_unknown_real, check_report, check_real, check_positions, check_open, current_posture,
}
use mt5_mcp_trading_framewor.Adapter.Executor.Submit.{prepare}

module _ {W F : Type 0} ⦃f : Float F⦄ (self : McpOrderExecutor W F) (P : W → Type 0) where
  -- what only looks at the surroundings keeps `P` of them
  pub record ReadsKeep : Type 0 where
    pub positions :
        (symbol : Option String) (magic : Option ℕ)
        → Preserves P (self.account.get_positions symbol magic)
    pub orders :
        (symbol : Option String) (magic : Option ℕ)
        → Preserves P (self.account.get_orders symbol magic)
    pub account_state : Preserves P self.get_account_state
    pub time : (w : W) → P w → P (self.now w).1
    pub deals :
        (arguments : Arguments F) → Preserves P (call_tool self.client "get_deals" arguments)

  abbrev Keeps : {A : Type 0} → Action (Machine W F) A → Type 0
  Keeps m = Preserves (λ s. P s.0) m

  outside-Keeps : {A : Type 0} (m : Action W A) → Preserves P m → Keeps (outside m)
  outside-Keeps m h s p = h s.0 p

  in_store-Keeps : {A : Type 0} (m : Action (Directory F) A) → Keeps (in_store m)
  in_store-Keeps m s p = p

  informational-Preserves : (r : Outcome (Unit {0})) → Preserves P (informational self r)
  informational-Preserves (ok u) w p = p
  informational-Preserves (raised e) w p = ground arith

  module _ (reads : ReadsKeep) where
    require_demo_account-Preserves : Preserves P (require_demo_account self)
    unfolding require_demo_account
    require_demo_account-Preserves =
        >>=-Preserves P self.get_account_state
          (λ state. raise_if (not (is_demo state.trade_mode)) not_demo_account) reads.account_state
          (λ state. raise_if-Preserves P (not (is_demo state.trade_mode)) not_demo_account)

    gate-Keeps : Keeps (gate self)
    unfolding gate
    gate-Keeps =
        >>=-Preserves (λ s. P s.0) (lift (require_demo_account_kind self.mt5_account_kind))
          (λ _. outside (attempt (require_demo_account self) >>= informational self))
          (lift-Preserves (λ s. P s.0) (require_demo_account_kind self.mt5_account_kind))
          (λ _. outside-Keeps (attempt (require_demo_account self) >>= informational self) (
            >>=-Preserves P (attempt (require_demo_account self)) (informational self)
              (attempt-Preserves P (require_demo_account self) require_demo_account-Preserves)
              informational-Preserves))

    fetch_deals-Preserves : Preserves P (fetch_deals self)
    unfolding fetch_deals get_deals minus_delta
    fetch_deals-Preserves = >>=-Preserves P (clock self) (deals_around self) reads.time λ now.
        >>=-Preserves P (lift (minus_delta now (pos one_day)))
          (λ fetch_from.
            lift (minus_delta now (negsuc (one_day - 1))) >>= deals_between self fetch_from)
          (lift-Preserves P (minus_delta now (pos one_day)))
          λ fetch_from.
            >>=-Preserves P (lift (minus_delta now (negsuc (one_day - 1))))
              (deals_between self fetch_from)
              (lift-Preserves P (minus_delta now (negsuc (one_day - 1))))
              λ fetch_to.
                >>=-Preserves P
                  (call_tool self.client "get_deals" (
                    deal_arguments self.lib (some (self.lib.date_text fetch_from))
                      (some (self.lib.date_text fetch_to)) none))
                  (λ raw. lift (read_deals self.lib raw)) (reads.deals _)
                  λ raw. lift-Preserves P (read_deals self.lib raw)

    gather-Keeps :
        (report : ReconciliationReport) (local_open : List (LocalOrderRecord F))
        → Keeps (gather self report local_open)
    unfolding gather
    gather-Keeps report local_open =
        >>=-Preserves (λ s. P s.0) (in_store (λ d. (all_records d, d)))
          (gather_with self report local_open) (in_store-Keeps (λ d. (all_records d, d)))
          λ records.
            >>=-Preserves (λ s. P s.0) (outside (fetch_deals self))
              (λ deals. lift (classify_deals self report local_open records deals))
              (outside-Keeps (fetch_deals self) fetch_deals-Preserves)
              (λ deals.
                lift-Preserves (λ s. P s.0) (classify_deals self report local_open records deals))

    close_explained-Keeps : (es : List (SlTpArtifactEvidence F)) → Keeps (close_explained self es)
    unfolding close_explained
    close_explained-Keeps [] = λ s p. p
    close_explained-Keeps (e ∷ es) =
        >>=-Preserves (λ s. P s.0)
          (in_store (record_closed e.position_ticket (self.describe e) e.time))
          (λ _. close_explained self es)
          (in_store-Keeps (record_closed e.position_ticket (self.describe e) e.time))
          (λ _. close_explained-Keeps es)

    apply_evidence-Keeps :
        (report : ReconciliationReport) (r : Outcome (SlTpArtifactClassification F))
        → Keeps (apply_evidence self report r)
    apply_evidence-Keeps report (raised e) = λ s p. p
    apply_evidence-Keeps report (ok c) =
        >>=-Preserves (λ s. P s.0) (close_explained self c.evidence)
          (λ _. pure (record report { unknown_real = c.unexplained }))
          (close_explained-Keeps c.evidence) (λ _ s p. p)

    explain_unknown_real-Keeps :
        (report : ReconciliationReport) (local_open : List (LocalOrderRecord F))
        → Keeps (explain_unknown_real self report local_open)
    unfolding explain_unknown_real
    explain_unknown_real-Keeps report local_open =
        >>=-Preserves (λ s. P s.0) (attempt (gather self report local_open))
          (apply_evidence self report)
          (attempt-Preserves (λ s. P s.0) (gather self report local_open)
            (gather-Keeps report local_open))
          (apply_evidence-Keeps report)

    check_report-Keeps : (report : ReconciliationReport) → Keeps (check_report self report)
    check_report-Keeps report =
        >>=-Preserves (λ s. P s.0) (lift (determine_posture (some report) none))
          (λ posture. pure (record { posture = posture; report = some report; error = none }))
          (lift-Preserves (λ s. P s.0) (determine_posture (some report) none)) (λ _ s p. p)

    check_real-Keeps :
        (local_open : List (LocalOrderRecord F)) (positions : List (PositionState F))
        (orders : List (OrderState F))
        → Keeps (check_real self local_open positions orders)
    unfolding reconcile explain_unknown_real
    check_real-Keeps local_open positions orders =
        let report = reconcile local_open positions orders in
        let explain = explain_unknown_real self report local_open in
        >>=-Preserves (λ s. P s.0)
          (if are_both report.unknown_real local_open then explain else pure report)
          (check_report self)
          (if-Preserves (λ s. P s.0) (are_both report.unknown_real local_open) explain (pure report)
            (explain_unknown_real-Keeps report local_open) (λ s p. p))
          check_report-Keeps

    check_positions-Keeps :
        (local_open : List (LocalOrderRecord F)) (positions : List (PositionState F))
        → Keeps (check_positions self local_open positions)
    unfolding explain_unknown_real
    check_positions-Keeps local_open positions =
        >>=-Preserves (λ s. P s.0) (outside (self.account.get_orders none none))
          (check_real self local_open positions)
          (outside-Keeps (self.account.get_orders none none) (reads.orders none none))
          (check_real-Keeps local_open positions)

    check_open-Keeps : (r : Outcome (List (LocalOrderRecord F))) → Keeps (check_open self r)
    unfolding explain_unknown_real
    check_open-Keeps (raised e) = λ s p. ground arith
    check_open-Keeps (ok local_open) =
        >>=-Preserves (λ s. P s.0) (outside (self.account.get_positions none none))
          (check_positions self local_open)
          (outside-Keeps (self.account.get_positions none none) (reads.positions none none))
          (check_positions-Keeps local_open)

    -- The gate and the posture keep whatever the reads keep.
    pub prepare-Keeps : Keeps (prepare self)
    unfolding prepare current_posture
    prepare-Keeps =
        >>=-Preserves (λ s. P s.0) (gate self) (λ _. current_posture self) gate-Keeps
          λ _.
            >>=-Preserves (λ s. P s.0) (attempt (in_store (λ d. (all_open d, d)))) (check_open self)
              (attempt-Preserves (λ s. P s.0) (in_store (λ d. (all_open d, d)))
                (in_store-Keeps (λ d. (all_open d, d))))
              check_open-Keeps
