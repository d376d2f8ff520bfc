-- ===== src/Mocks/DryRun.antt =====
-- execution/dry_run.py: the executor that logs each request and passes it on to the mock.
pub mod Laws
use mt5_mcp_trading_framewor.Common.{ℕ, Option, List, [], ◌∷◌, ◌++◌}
use mt5_mcp_trading_framewor.Common.Outcome.{Outcome}
use mt5_mcp_trading_framewor.Common.Action.{Action}
use mt5_mcp_trading_framewor.Domain.{OrderPlan, ExecutionResult}
use mt5_mcp_trading_framewor.Pipeline.Interfaces.{OrderExecutor}
use mt5_mcp_trading_framewor.Mocks.{MockOrderExecutor, mock_executor}

-- the lines of the log, with what they format
pub data LogLine (F : Type 0) : Type 0 where
  would_submit : OrderPlan F → LogLine F
  would_cancel : ℕ → LogLine F
  would_close : ℕ → Option F → LogLine F

pub record DryRunExecutor (F : Type 0) : Type 0 where
  pub delegate : MockOrderExecutor F
  pub log : List (LogLine F)

module _ {F : Type 0} where
  -- a line of the log, and then the delegate
  abbrev pub logged :
      {A : Type 0} → LogLine F → Action (MockOrderExecutor F) A → Action (DryRunExecutor F) A
  logged line call d =
      let (r, m) = call d.delegate in (r, record { delegate = m; log = d.log ++ (line ∷ []) })

  unfoldable pub dry_run_executor : OrderExecutor (DryRunExecutor F) F
  unfolding mock_executor
  dry_run_executor = record {
    submit = λ plan. logged (would_submit plan) (mock_executor.submit plan);
    cancel = λ ticket. logged (would_cancel ticket) (mock_executor.cancel ticket);
    close_position = λ ticket volume.
        logged (would_close ticket volume) (mock_executor.close_position ticket volume);
  }
