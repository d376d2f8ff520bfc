-- ===== src/Session/Cycle.antt =====
-- `_run_one_cycle`: the grid and then the runner, each on its own.
use mt5_mcp_trading_framewor.Common.{Bool, true, false, ◌&&◌, some}
use mt5_mcp_trading_framewor.Common.Outcome.{Outcome, ok, raised}
use mt5_mcp_trading_framewor.Float.{Float}
use mt5_mcp_trading_framewor.Pipeline.GridCycle.{
  GridCycle, finished, grid_cycle_error, run_grid_cycle,
}
use mt5_mcp_trading_framewor.Pipeline.RunnerCycle.{run_runner_cycle}
use mt5_mcp_trading_framewor.Session.{Session, grid_settings, runner_settings}

abbrev pub grid_is_ok : {F : Type 0} → Outcome (GridCycle F) → Bool
grid_is_ok (ok (finished results)) = true
grid_is_ok (ok (grid_cycle_error results errors)) = false
grid_is_ok (raised e) = false

abbrev pub is_ok : {A : Type 0} → Outcome A → Bool
is_ok (ok a) = true
is_ok (raised e) = false

module _ {S F : Type 0} ⦃f : Float F⦄ (session : Session S F) where
  unfoldable pub run_one_cycle : S → Bool × S
  unfolding run_grid_cycle run_runner_cycle
  run_one_cycle s =
      let grid =
        run_grid_cycle session.market_data session.account session.executor (grid_settings session)
          (some session.all_open) s in
      let runner =
        run_runner_cycle session.market_data session.account session.executor
          (runner_settings session) (some session.all_open) grid.1 in
      (grid_is_ok grid.0 && is_ok runner.0, runner.1)
