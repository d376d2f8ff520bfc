-- ===== src/Tests/Deals.antt =====
-- state/sl_tp_artifact.py and monitoring/live_performance.py at concrete inputs.
use mt5_mcp_trading_framewor.Common.{ℕ, ◌≡◌, refl, some, [], ◌∷◌, map, arith, ◌*◌}
use mt5_mcp_trading_framewor.Common.Int.{pos, negsuc}
use mt5_mcp_trading_framewor.Common.Outcome.{ok}
use mt5_mcp_trading_framewor.Float.Fixed.{Fixed, fixed_float}
use mt5_mcp_trading_framewor.Domain.{Deal}
use mt5_mcp_trading_framewor.Risk.{aware, DailyLossLimitConfig}
use mt5_mcp_trading_framewor.State.Models.{LocalOrderRecord}
use mt5_mcp_trading_framewor.State.SlTpArtifact.{classify_unknown_real_tickets}
use mt5_mcp_trading_framewor.State.SlTpArtifact.Laws.{Classifies, classify_unknown_real_tickets_lem}
use mt5_mcp_trading_framewor.Monitoring.DealTime.{infer_deal_time_offset, raw_diffs, quarter_hour}
use mt5_mcp_trading_framewor.Monitoring.DealTime.Laws.{infer_deal_time_offset_exact}
use mt5_mcp_trading_framewor.Monitoring.DailyPnl.{compute_daily_loss_decision}
use mt5_mcp_trading_framewor.Monitoring.DailyPnl.Laws.{ahead, compute_daily_loss_decision-ahead}
use mt5_mcp_trading_framewor.Tests.Records.{stored}

-- a market order for the ticket 42, submitted three hours into the first year
abbrev bought : LocalOrderRecord Fixed
bought = record stored { order_type = "MARKET"; submitted_at = some 10_800_000_000 }

abbrev deal_at : ℕ → ℕ → ℕ → Deal Fixed
deal_at ticket entry time = record {
  ticket = ticket;
  order = 9;
  position_id = 42;
  time = time;
  kind = entry;
  entry = entry;
  symbol = "BTCUSD";
  volume = pos 10;
  price = pos 95_000;
  profit = negsuc 4999;
  commission = pos 0;
  swap = pos 0;
  fee = pos 0;
  magic = 0;
  comment = "[sl 95.000]";
}

-- by a clock that runs three hours ahead, a second after the submission
abbrev entry_deal : Deal Fixed
entry_deal = deal_at 1 0 21_601_000_000

abbrev exit_deal : Deal Fixed
exit_deal = deal_at 2 1 25_000_000_000

classify_unknown_real_tickets_lem_example :
    Classifies
      (bought ∷ [])
      (exit_deal ∷ [])
      (pos 10_800_000_000)
      (9 ∷ [])
      (classify_unknown_real_tickets (9 ∷ []) (bought ∷ []) (exit_deal ∷ []) (pos 10_800_000_000))
classify_unknown_real_tickets_lem_example =
    classify_unknown_real_tickets_lem (bought ∷ []) (exit_deal ∷ []) (pos 10_800_000_000) (9 ∷ [])

infer_deal_time_offset_exact_example :
    infer_deal_time_offset (bought ∷ []) (entry_deal ∷ exit_deal ∷ [])
    ≡ ok (some (pos (12 * quarter_hour)))
unfolding raw_diffs
infer_deal_time_offset_exact_example =
    infer_deal_time_offset_exact (bought ∷ []) (entry_deal ∷ exit_deal ∷ []) 12 (pos 10_801_000_000)
      [] refl (omega arith)

abbrev loss_config : DailyLossLimitConfig Fixed
loss_config = record { max_daily_loss = some (pos 4000); reset_hour_utc = 0 }

compute_daily_loss_decision-ahead_example :
    compute_daily_loss_decision
      (map (ahead 10_800_000_000) (exit_deal ∷ []))
      (42 ∷ [])
      (aware 100_000_000_000)
      loss_config
      (pos 10_800_000_000)
    ≡ compute_daily_loss_decision
        (exit_deal ∷ [])
        (42 ∷ [])
        (aware 100_000_000_000)
        loss_config
        (pos 0)
compute_daily_loss_decision-ahead_example =
    compute_daily_loss_decision-ahead (exit_deal ∷ []) (42 ∷ []) (aware 100_000_000_000) loss_config
      10_800_000_000
