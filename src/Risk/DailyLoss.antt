-- ===== src/Risk/DailyLoss.antt =====
-- risk/daily_loss_guard.py: the daily loss limit, and the start of the window that it counts from.
use mt5_mcp_trading_framewor.Common.{
  ℕ, ◌+◌, ◌-◌, ◌*◌, ◌/◌, true, false, ◌&&◌, Option, none, some, [], ◌∷◌, if◌then◌else◌, ltb,
}
use mt5_mcp_trading_framewor.Common.Outcome.{Outcome, ok, raised, value_error, overflow_error}
use mt5_mcp_trading_framewor.Float.{Float, ◌⊏◌, ◌⊑◌, nought}
use mt5_mcp_trading_framewor.Domain.{
  Time, RiskDecision, no_daily_loss_limit, breaches_daily_loss, within_daily_loss, daily_loss_limit,
}

pub record DailyLossLimitConfig (F : Type 0) : Type 0 where
  pub max_daily_loss : Option F
  pub reset_hour_utc : ℕ

module _ {F : Type 0} ⦃f : Float F⦄ where
  abbrev check_against : F → F → RiskDecision F
  check_against pnl limit =
      if (pnl ⊏ nought) && (limit ⊑ f.neg pnl)
      then record {
        approved = false;
        reasons = breaches_daily_loss pnl limit ∷ [];
        blocking_guard = some daily_loss_limit;
      }
      else record {
        approved = true;
        reasons = within_daily_loss pnl limit ∷ [];
        blocking_guard = none;
      }

  abbrev check_max : F → Option F → Outcome (RiskDecision F)
  check_max pnl none =
      ok (record { approved = true; reasons = no_daily_loss_limit ∷ []; blocking_guard = none })
  check_max pnl (some limit) =
      if limit ⊏ nought then raised value_error else ok (check_against pnl limit)

  unfoldable pub check_daily_loss_limit : F → DailyLossLimitConfig F → Outcome (RiskDecision F)
  check_daily_loss_limit pnl config = check_max pnl config.max_daily_loss

-- A `datetime`: without a time zone, its wall clock; with one, its instant.
pub data Datetime : Type 0 where
  naive : ℕ → Datetime
  aware : Time → Datetime

abbrev pub hour : ℕ
hour = 3_600_000_000

abbrev pub day : ℕ
day = 86_400_000_000

-- `now_utc.replace(hour=h, minute=0, second=0, microsecond=0)`
abbrev pub at_hour : Time → ℕ → Time
at_hour now h = now / day * day + h * hour

-- `boundary -= timedelta(days=1)`, which is out of range before the first day of year 1
abbrev pub day_before : Time → Outcome Time
day_before t = if ltb t day then raised overflow_error else ok (t - day)

unfoldable pub daily_reset_boundary : Datetime → ℕ → Outcome Time
daily_reset_boundary (naive t) h = raised value_error
daily_reset_boundary (aware now) h =
    if ltb 23 h
    then raised value_error
    else let boundary = at_hour now h in
      if ltb now boundary then day_before boundary else ok boundary
