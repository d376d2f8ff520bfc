-- ===== src/Session/Loss.antt =====
-- The daily loss decision of a cycle: computed from the deals, and a breach where that fails.
use mt5_mcp_trading_framewor.Common.{◌-◌, false, Option, none, some, [], ◌∷◌}
use mt5_mcp_trading_framewor.Common.Int.{pos, negsuc}
use mt5_mcp_trading_framewor.Common.Clock.{minus_delta}
use mt5_mcp_trading_framewor.Common.Outcome.{Outcome, ok, raised}
use mt5_mcp_trading_framewor.Common.Action.{Action, ◌>>=◌, lift}
use mt5_mcp_trading_framewor.Float.{Float, nought}
use mt5_mcp_trading_framewor.Domain.{
  Time, RiskDecision, loss_not_computed, daily_loss_computation_error,
}
use mt5_mcp_trading_framewor.Risk.{
  DailyLossLimitConfig, check_daily_loss_limit, daily_reset_boundary, aware,
}
use mt5_mcp_trading_framewor.State.Reconcile.{local_tickets}
use mt5_mcp_trading_framewor.Monitoring.DealTime.{infer_deal_time_offset}
use mt5_mcp_trading_framewor.Monitoring.DailyPnl.{compute_daily_loss_decision}
use mt5_mcp_trading_framewor.Adapter.Executor.Posture.{one_day, or_zero}
use mt5_mcp_trading_framewor.Session.{Session}

module _ {S F : Type 0} ⦃f : Float F⦄ (session : Session S F) where
  abbrev pub clock : Action S Time
  clock s = let (t, s') = session.now s in (ok t, s')

  unfoldable pub decide : DailyLossLimitConfig F → Option F → Action S (RiskDecision F)
  unfolding check_daily_loss_limit daily_reset_boundary minus_delta infer_deal_time_offset
      compute_daily_loss_decision
  decide config none = lift (check_daily_loss_limit nought config)
  decide config (some limit) = do
    now ← clock
    boundary ← lift (daily_reset_boundary (aware now) config.reset_hour_utc)
    fetch_from ← lift (minus_delta boundary (pos one_day))
    fetch_to ← lift (minus_delta now (negsuc (one_day - 1)))
    deals ← session.get_deals fetch_from fetch_to
    all_records ← session.all_records
    offset ← lift (infer_deal_time_offset all_records deals)
    lift (
        compute_daily_loss_decision deals (local_tickets all_records) (aware now) config
          (or_zero offset))

  -- the script's `_compute_daily_loss_decision`
  unfoldable pub current_daily_loss_decision : DailyLossLimitConfig F → Action S (RiskDecision F)
  unfolding decide
  current_daily_loss_decision config = decide config config.max_daily_loss

  abbrev pub or_breach : Outcome (RiskDecision F) → RiskDecision F
  or_breach (ok decision) = decision
  or_breach (raised e) = record {
    approved = false;
    reasons = loss_not_computed e ∷ [];
    blocking_guard = some daily_loss_computation_error;
  }

  unfoldable pub daily_loss_decision_for_cycle : DailyLossLimitConfig F → S → RiskDecision F × S
  unfolding current_daily_loss_decision decide
  daily_loss_decision_for_cycle config s =
      let computed = current_daily_loss_decision config s in (or_breach computed.0, computed.1)
