-- ===== src/Adapter/Executor/Posture.antt =====
-- The gate, the fresh reconciliation and the second look at unknown tickets.
use mt5_mcp_trading_framewor.Common.{
  ℕ, ◌-◌, Bool, true, false, not, Option, none, some, List, [], ◌∷◌, if◌then◌else◌,
}
use mt5_mcp_trading_framewor.Common.Int.{ℤ, pos, negsuc}
use mt5_mcp_trading_framewor.Common.Clock.{minus_delta}
use mt5_mcp_trading_framewor.Common.Outcome as Outcome
use mt5_mcp_trading_framewor.Common.Outcome.{
  Error, Outcome, ok, raised, state_load_error, not_demo_account,
}
use mt5_mcp_trading_framewor.Common.Action.{
  Action, ◌>>=◌, ◌>>◌, pure, raise, lift, attempt, raise_if,
}
use mt5_mcp_trading_framewor.Float.{Float}
use mt5_mcp_trading_framewor.Domain.{TradeMode, demo, Deal, Time, PositionState, OrderState}
use mt5_mcp_trading_framewor.Config.{require_demo_account_kind}
use mt5_mcp_trading_framewor.State.Models.{LocalOrderRecord, ReconciliationReport}
use mt5_mcp_trading_framewor.State.Reconcile.{ExecutionPosture, determine_posture, reconcile}
use mt5_mcp_trading_framewor.State.SlTpArtifact.{
  SlTpArtifactEvidence, SlTpArtifactClassification, classify_unknown_real_tickets,
}
use mt5_mcp_trading_framewor.State.Store.{all_open, all_records, record_closed}
use mt5_mcp_trading_framewor.Monitoring.DealTime.{infer_deal_time_offset}
use mt5_mcp_trading_framewor.Adapter.Deals.{get_deals}
use mt5_mcp_trading_framewor.Adapter.Executor.{McpOrderExecutor, Machine, outside, in_store, clock}

pub record PostureCheck : Type 0 where
  pub posture : ExecutionPosture
  pub report : Option ReconciliationReport
  pub error : Option Error

abbrev pub is_demo : TradeMode → Bool
is_demo demo = true
is_demo _ = false

abbrev pub one_day : ℕ
one_day = 86_400_000_000

-- `offset or timedelta(0)`
abbrev pub or_zero : Option ℤ → ℤ
or_zero none = pos 0
or_zero (some offset) = offset

-- `report.unknown_real and local_open`
abbrev pub are_both : {A B : Type 0} → List A → List B → Bool
are_both [] ys = false
are_both (x ∷ xs) [] = false
are_both (x ∷ xs) (y ∷ ys) = true

module _ {W F : Type 0} ⦃f : Float F⦄ (self : McpOrderExecutor W F) where
  -- mt5_adapter/safety.py
  unfoldable pub require_demo_account : Action W (Unit {0})
  require_demo_account =
      self.get_account_state >>= λ state. raise_if (not (is_demo state.trade_mode)) not_demo_account

  -- `except NotDemoAccountError: warn`
  abbrev pub informational : Outcome (Unit {0}) → Action W (Unit {0})
  informational (raised not_demo_account) = pure tt
  informational r = lift r

  unfoldable pub gate : Action (Machine W F) (Unit {0})
  unfolding require_demo_account_kind require_demo_account
  gate =
      lift (require_demo_account_kind self.mt5_account_kind)
      >> outside (attempt require_demo_account >>= informational)

  -- the deals from a day before `now` to a day after it
  abbrev pub deals_between : Time → Time → Action W (List (Deal F))
  deals_between fetch_from fetch_to =
      get_deals self.lib self.client (some (self.lib.date_text fetch_from))
        (some (self.lib.date_text fetch_to)) none

  abbrev pub deals_around : Time → Action W (List (Deal F))
  unfolding minus_delta
  deals_around now = lift (minus_delta now (pos one_day)) >>= λ fetch_from.
      lift (minus_delta now (negsuc (one_day - 1))) >>= deals_between fetch_from

  unfoldable pub fetch_deals : Action W (List (Deal F))
  fetch_deals = clock self >>= deals_around

  -- the pure part of the `try` of `_explain_unknown_real`
  unfoldable pub classify_deals :
      ReconciliationReport
      → List (LocalOrderRecord F)
      → List (LocalOrderRecord F)
      → List (Deal F)
      → Outcome (SlTpArtifactClassification F)
  unfolding infer_deal_time_offset classify_unknown_real_tickets
  classify_deals report local_open all_records deals =
      Outcome.◌>>=◌ (infer_deal_time_offset all_records deals) (λ offset.
        classify_unknown_real_tickets report.unknown_real local_open deals (or_zero offset))

  abbrev pub gather_with :
      ReconciliationReport
      → List (LocalOrderRecord F)
      → List (LocalOrderRecord F)
      → Action (Machine W F) (SlTpArtifactClassification F)
  unfolding fetch_deals classify_deals
  gather_with report local_open all_records =
      outside fetch_deals >>= λ deals. lift (classify_deals report local_open all_records deals)

  -- the `try` of `_explain_unknown_real`
  unfoldable pub gather :
      ReconciliationReport
      → List (LocalOrderRecord F)
      → Action (Machine W F) (SlTpArtifactClassification F)
  unfolding all_records fetch_deals classify_deals
  gather report local_open = in_store (λ d. (all_records d, d)) >>= gather_with report local_open

  -- the loop over the evidence
  unfoldable pub close_explained : List (SlTpArtifactEvidence F) → Action (Machine W F) (Unit {0})
  close_explained [] = pure tt
  close_explained (e ∷ es) =
      in_store (record_closed e.position_ticket (self.describe e) e.time) >> close_explained es

  abbrev pub apply_evidence :
      ReconciliationReport
      → Outcome (SlTpArtifactClassification F)
      → Action (Machine W F) ReconciliationReport
  apply_evidence report (raised e) = pure report
  apply_evidence report (ok classification) =
      close_explained classification.evidence
      >> pure (record report { unknown_real = classification.unexplained })

  unfoldable pub explain_unknown_real :
      ReconciliationReport → List (LocalOrderRecord F) → Action (Machine W F) ReconciliationReport
  unfolding gather close_explained
  explain_unknown_real report local_open =
      attempt (gather report local_open) >>= apply_evidence report

  abbrev pub check_report : ReconciliationReport → Action (Machine W F) PostureCheck
  check_report report = lift (determine_posture (some report) none) >>= λ posture.
      pure (record { posture = posture; report = some report; error = none })

  abbrev pub check_real :
      List (LocalOrderRecord F)
      → List (PositionState F)
      → List (OrderState F)
      → Action (Machine W F) PostureCheck
  unfolding explain_unknown_real
  check_real local_open positions orders =
      let report = reconcile local_open positions orders in
      (if are_both report.unknown_real local_open
        then explain_unknown_real report local_open
        else pure report)
      >>= check_report

  abbrev pub check_positions :
      List (LocalOrderRecord F) → List (PositionState F) → Action (Machine W F) PostureCheck
  unfolding explain_unknown_real
  check_positions local_open positions =
      outside (self.account.get_orders none none) >>= check_real local_open positions

  abbrev pub check_open : Outcome (List (LocalOrderRecord F)) → Action (Machine W F) PostureCheck
  unfolding explain_unknown_real
  check_open (raised state_load_error) =
      lift (determine_posture none (some state_load_error)) >>= λ posture.
      pure (record { posture = posture; report = none; error = some state_load_error })
  check_open (raised e) = raise e
  check_open (ok local_open) =
      outside (self.account.get_positions none none) >>= check_positions local_open

  unfoldable pub current_posture : Action (Machine W F) PostureCheck
  unfolding all_open explain_unknown_real
  current_posture = attempt (in_store (λ d. (all_open d, d))) >>= check_open
