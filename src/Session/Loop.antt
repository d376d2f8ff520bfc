-- ===== src/Session/Loop.antt =====
-- The wait between cycles and the loop of `main`, on fuel: a wait ends with its last poll, and the loop
-- with its last cycle.
pub mod Laws
use mt5_mcp_trading_framewor.Common.{
  ℕ, zero, suc, Bool, true, false, not, Option, none, some, if◌then◌else◌,
}
use mt5_mcp_trading_framewor.Float.{Float, ◌⊕◌, ◌⊖◌, ◌⊏◌, nought, min}
use mt5_mcp_trading_framewor.Domain.{RiskDecision}
use mt5_mcp_trading_framewor.Risk.{DailyLossLimitConfig}
use mt5_mcp_trading_framewor.Pipeline.LoopControl.{LoopLimits, StopReason, should_stop}
use mt5_mcp_trading_framewor.Session.{Session}
use mt5_mcp_trading_framewor.Session.Cycle.{run_one_cycle}
use mt5_mcp_trading_framewor.Session.Loss.{daily_loss_decision_for_cycle}

-- how a wait ends, and how the loop ends, with the number of cycles that were run
pub data WaitEnd : Type 0 where
  stop_requested interval_over polls_used_up : WaitEnd

pub data LoopEnd (F : Type 0) : Type 0 where
  stopped_before : ℕ → StopReason F → LoopEnd F
  stopped_by_error : ℕ → LoopEnd F
  stopped_in_wait : ℕ → LoopEnd F
  fuel_used_up : LoopEnd F

module _ {S F : Type 0} ⦃f : Float F⦄ (session : Session S F) (limits : LoopLimits F) where
  -- `should_stop` with what it reads
  unfoldable pub stop_check : ℕ → RiskDecision F → S → Option (StopReason F) × S
  unfolding should_stop
  stop_check cycle_num decision s =
      let (elapsed, s1) = session.elapsed s in
      let (stop_file, s2) = session.stop_file_exists s1 in
      (should_stop cycle_num elapsed stop_file limits (some decision), s2)

  abbrev pub next_step : F → F
  unfolding min
  next_step waited = min limits.poll_interval_seconds (limits.cycle_interval_seconds ⊖ waited)

  -- a round that did not stop sleeps and goes on
  abbrev pub after_poll : Option (StopReason F) → (S → WaitEnd × S) → F → S → WaitEnd × S
  after_poll (some reason) go_on step s = (stop_requested, s)
  after_poll none go_on step s = go_on (session.sleep step s)

  unfoldable pub wait_for_next_cycle : ℕ → ℕ → RiskDecision F → F → S → WaitEnd × S
  unfolding stop_check next_step
  wait_for_next_cycle zero cycle_num decision waited s =
      if waited ⊏ limits.cycle_interval_seconds then (polls_used_up, s) else (interval_over, s)
  wait_for_next_cycle (suc polls) cycle_num decision waited s =
      let checked = stop_check cycle_num decision s in
      let later = wait_for_next_cycle polls cycle_num decision (waited ⊕ next_step waited) in
      if waited ⊏ limits.cycle_interval_seconds
      then after_poll checked.0 later (next_step waited) checked.1
      else (interval_over, s)

  module _ (polls : ℕ) (config : DailyLossLimitConfig F) where
    abbrev pub after_wait : ℕ → (S → LoopEnd F × S) → WaitEnd × S → LoopEnd F × S
    after_wait cycle_num go_on (stop_requested, s) = (stopped_in_wait cycle_num, s)
    after_wait cycle_num go_on (interval_over, s) = go_on s
    after_wait cycle_num go_on (polls_used_up, s) = (fuel_used_up, s)

    abbrev pub after_cycle : ℕ → RiskDecision F → (S → LoopEnd F × S) → Bool × S → LoopEnd F × S
    unfolding wait_for_next_cycle
    after_cycle cycle_num decision go_on (false, s) = (stopped_by_error cycle_num, s)
    after_cycle cycle_num decision go_on (true, s) =
        after_wait cycle_num go_on (wait_for_next_cycle polls cycle_num decision nought s)

    abbrev pub after_check :
        ℕ → RiskDecision F → (S → LoopEnd F × S) → Option (StopReason F) × S → LoopEnd F × S
    unfolding wait_for_next_cycle run_one_cycle
    after_check cycle_num decision go_on (some reason, s) = (stopped_before cycle_num reason, s)
    after_check cycle_num decision go_on (none, s) =
        after_cycle (suc cycle_num) decision go_on (run_one_cycle session s)

    -- the loop of `main`, from the number of cycles that were run
    unfoldable pub main_loop : ℕ → ℕ → S → LoopEnd F × S
    unfolding stop_check daily_loss_decision_for_cycle wait_for_next_cycle run_one_cycle
    main_loop zero cycle_num s = (fuel_used_up, s)
    main_loop (suc fuel) cycle_num s =
        let decided = daily_loss_decision_for_cycle session config s in
        after_check cycle_num decided.0 (main_loop fuel (suc cycle_num))
          (stop_check cycle_num decided.0 decided.1)
