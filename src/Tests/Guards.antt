-- ===== src/Tests/Guards.antt =====
-- risk/, sizing/ and the daily reset at concrete inputs.
use mt5_mcp_trading_framewor.Common.{
  ◌≡◌, ◌⊎◌, ◌↔◌, ◌≤◌, ◌<◌, ◌+◌, ◌*◌, ◌%◌, refl, true, false, not, ◌&&◌, none, some, [], ◌∷◌, All,
  codes, text_eq,
}
use mt5_mcp_trading_framewor.Common.Int.{pos}
use mt5_mcp_trading_framewor.Float.Fixed.{Fixed, fixed_float, Fixed-IsOrdered}
use mt5_mcp_trading_framewor.Domain.{
  RiskDecision, within_caps, breaches_daily_loss, daily_loss_limit, within_daily_loss,
}
use mt5_mcp_trading_framewor.Risk.{combine, all_reasons}
use mt5_mcp_trading_framewor.Risk.{DailyLossLimitConfig, daily_reset_boundary, day, hour}
use mt5_mcp_trading_framewor.Risk.Laws.{IsApproved, combine_iff}
use mt5_mcp_trading_framewor.Risk.Window.{daily_reset_boundary_window}
use mt5_mcp_trading_framewor.Sizing.{MoneyConfig, LotInputs, normal_mode, decide_lot}
use mt5_mcp_trading_framewor.Sizing.Laws.{decide_lot_cases, IsWithin, is_misinformed}
use mt5_mcp_trading_framewor.Tests.Samples.{granted, money}

abbrev both_granted : RiskDecision Fixed
both_granted = record {
  approved = true;
  reasons = within_caps ∷ within_caps ∷ [];
  blocking_guard = none;
}

combine_iff_example :
    (IsApproved both_granted ↔ All IsApproved (granted ∷ granted ∷ []))
    × (both_granted.reasons ≡ all_reasons (granted ∷ granted ∷ []))
unfolding combine
combine_iff_example = combine_iff (granted ∷ granted ∷ []) {r = both_granted} refl

abbrev loss_config : DailyLossLimitConfig Fixed
loss_config = record { max_daily_loss = some (pos 50_000); reset_hour_utc = 22 }

abbrev tripped_at : Fixed → RiskDecision Fixed
tripped_at pnl = record {
  approved = false;
  reasons = breaches_daily_loss pnl (pos 50_000) ∷ [];
  blocking_guard = some daily_loss_limit;
}

abbrev quiet_at : Fixed → RiskDecision Fixed
quiet_at pnl = record {
  approved = true;
  reasons = within_daily_loss pnl (pos 50_000) ∷ [];
  blocking_guard = none;
}

-- 21:00 of the tenth day, an hour before the reset: the window began at 22:00 of the day before
daily_reset_boundary_window_example :
    (8 * day + 22 * hour ≤ 9 * day + 21 * hour)
    × (9 * day + 21 * hour < 8 * day + 22 * hour + day)
    × ((8 * day + 22 * hour) % day ≡ 22 * hour)
unfolding daily_reset_boundary
daily_reset_boundary_window_example =
    daily_reset_boundary_window (9 * day + 21 * hour) 22 {b = 8 * day + 22 * hour} refl

abbrev scaled_money : MoneyConfig Fixed
scaled_money = record money { lot_size_mode = codes " ATR_scale" }

abbrev volatile : LotInputs Fixed
volatile = record {
  atr = some (pos 3000);
  step = some (pos 2000);
  account_balance = pos 0;
  point_value_per_lot = none;
  price_point = none;
  open_lots_now = none;
  pending_lots_now = none;
}

decide_lot_cases_example :
    let mode = normal_mode scaled_money.lot_size_mode in
    let lot = (decide_lot scaled_money volatile).lot in
    let is_atr_scale = text_eq mode (codes "atr_scale") in
    let is_risk_percent =
      text_eq mode (codes "risk_percent") && not (is_misinformed scaled_money volatile) in
    ((is_atr_scale ≡ true) × IsWithin scaled_money lot)
    ⊎ ((is_atr_scale ≡ false) × (is_risk_percent ≡ true) × IsWithin scaled_money lot)
    ⊎ ((is_atr_scale ≡ false) × (is_risk_percent ≡ false) × (lot ≡ scaled_money.fixed_lot))
unfolding fixed_float
decide_lot_cases_example = decide_lot_cases Fixed-IsOrdered scaled_money volatile refl
