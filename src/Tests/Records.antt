-- ===== src/Tests/Records.antt =====
-- state/ and mcp_adapter/ at concrete inputs.
use mt5_mcp_trading_framewor.Common.{
  ℕ, ◌≡◌, ◌⊎◌, ◌↔◌, true, false, not, ◌&&◌, Option, none, some, List, [], ◌∷◌, any,
}
use mt5_mcp_trading_framewor.Common.Int.{pos}
use mt5_mcp_trading_framewor.Common.Outcome.{ok, raised, Error, state_load_error}
use mt5_mcp_trading_framewor.Float.Fixed.{Fixed, fixed_float}
use mt5_mcp_trading_framewor.Domain.{buy}
use mt5_mcp_trading_framewor.State.Models.{LocalOrderRecord, ReconciliationReport, open_unprotected}
use mt5_mcp_trading_framewor.State.Store.{
  Directory, Submission, undecodable, write_one, submitted_record, all_open,
}
use mt5_mcp_trading_framewor.State.Store.Laws.{is_unreadable, all_open_cases}
use mt5_mcp_trading_framewor.State.Reconcile.{
  mem, local_tickets, real_tickets, reconcile, normal, manage_only, blocked, determine_posture,
}
use mt5_mcp_trading_framewor.State.Reconcile.Laws.{Ascends, reconcile_lem, posture_iff}
use mt5_mcp_trading_framewor.Tests.Samples.{order_at, position_at}

abbrev pub submission : Submission Fixed
submission = record {
  ticket = 42;
  strategy = "grid";
  magic = 71101;
  comment = "grid_buy";
  symbol = "BTCUSD";
  side = "BUY";
  order_type = "LIMIT";
  requested_volume = pos 10;
  requested_price = some (pos 101_000);
  requested_sl = pos 95_000;
  requested_tp = pos 103_000;
  requested_deviation = 150;
  requested_filling_mode = none;
  requested_expiry = none;
  retcode = pos 10009;
  executed_price = none;
  executed_volume = none;
  broker_comment = "";
  submitted_at = 7;
}

abbrev pub stored : LocalOrderRecord Fixed
stored = submitted_record submission open_unprotected

abbrev pub folder : Directory Fixed
folder = (7, undecodable) ∷ []

unfoldable pub full_folder : Directory Fixed
unfolding write_one
full_folder = write_one stored folder

all_open_cases_example :
    ((any is_unreadable full_folder ≡ true) × (all_open full_folder ≡ raised state_load_error))
    ⊎ ((any is_unreadable full_folder ≡ false)
        × ((rs : List (LocalOrderRecord Fixed)) × (all_open full_folder ≡ ok rs)))
all_open_cases_example = all_open_cases full_folder

reconcile_lem_example :
    let report =
      reconcile (stored ∷ []) (position_at 5 buy 100_000 ∷ []) (order_at 42 buy 101_000 ∷ []) in
    let locals = local_tickets (stored ∷ []) in
    let reals = real_tickets (position_at 5 buy 100_000 ∷ []) (order_at 42 buy 101_000 ∷ []) in
    ((t : ℕ) → mem t report.matched ≡ mem t locals && mem t reals)
    × ((t : ℕ) → mem t report.local_only ≡ mem t locals && not (mem t reals))
    × ((t : ℕ) → mem t report.unknown_real ≡ mem t reals && not (mem t locals))
    × Ascends report.matched
    × Ascends report.local_only
    × Ascends report.unknown_real
reconcile_lem_example =
    reconcile_lem (stored ∷ []) (position_at 5 buy 100_000 ∷ []) (order_at 42 buy 101_000 ∷ [])

posture_iff_example :
    let posture =
      determine_posture (some (reconcile (stored ∷ []) [] (order_at 42 buy 101_000 ∷ []))) none in
    let known =
      (t : ℕ)
      → mem t (real_tickets [] (order_at 42 buy 101_000 ∷ [])) ≡ true
      → mem t (local_tickets (stored ∷ [])) ≡ true in
    ((posture ≡ ok normal) ↔ known)
    × ((posture ≡ ok manage_only) ↔ (¬ known))
    × ((report : Option ReconciliationReport) (e : Error)
        → determine_posture report (some e) ≡ ok blocked)
posture_iff_example = posture_iff (stored ∷ []) [] (order_at 42 buy 101_000 ∷ [])
