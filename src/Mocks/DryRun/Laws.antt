-- ===== src/Mocks/DryRun/Laws.antt =====
-- Proofs about execution/dry_run.py: a client's requests to the dry run and to the mock.
use mt5_mcp_trading_framewor.Common.{ℕ, ◌≡◌, refl, sym, ap, ◌∙◌, Option, List, [], ◌∷◌, ◌++◌, map}
use mathlib.Core.List.{append_assoc, append-nil}
use mt5_mcp_trading_framewor.Common.Outcome.{Outcome}
use mt5_mcp_trading_framewor.Common.Action.{Action}
use mt5_mcp_trading_framewor.Domain.{OrderPlan, ExecutionResult}
use mt5_mcp_trading_framewor.Pipeline.Interfaces.{OrderExecutor}
use mt5_mcp_trading_framewor.Mocks.{MockOrderExecutor, mock_executor}
use mt5_mcp_trading_framewor.Mocks.DryRun.{
  LogLine, would_submit, would_cancel, would_close, DryRunExecutor, dry_run_executor,
}

-- what a client can ask of any executor
pub data Request (F : Type 0) : Type 0 where
  submission : OrderPlan F → Request F
  cancellation : ℕ → Request F
  closing : ℕ → Option F → Request F

module _ {S F : Type 0} (executor : OrderExecutor S F) where
  abbrev pub ask : Request F → Action S (ExecutionResult F)
  ask (submission plan) = executor.submit plan
  ask (cancellation ticket) = executor.cancel ticket
  ask (closing ticket volume) = executor.close_position ticket volume

  -- one request after the other, whatever each comes to
  unfoldable pub ask_all : List (Request F) → S → List (Outcome (ExecutionResult F)) × S
  ask_all [] s = ([], s)
  ask_all (q ∷ qs) s =
      let first = ask q s in let rest = ask_all qs first.1 in (first.0 ∷ rest.0, rest.1)

module _ {F : Type 0} where
  abbrev pub line_of : Request F → LogLine F
  line_of (submission plan) = would_submit plan
  line_of (cancellation ticket) = would_cancel ticket
  line_of (closing ticket volume) = would_close ticket volume

  abbrev pub submissions : List (Request F) → List (OrderPlan F)
  submissions [] = []
  submissions (submission plan ∷ qs) = plan ∷ submissions qs
  submissions (_ ∷ qs) = submissions qs

  ask_logged :
      (q : Request F) (d : DryRunExecutor F)
      → ask dry_run_executor q d ≡ (
        (ask mock_executor q d.delegate).0,
        record { delegate = (ask mock_executor q d.delegate).1; log = d.log ++ (line_of q ∷ []) },
      )
  unfolding dry_run_executor mock_executor
  ask_logged (submission plan) d = refl
  ask_logged (cancellation ticket) d = refl
  ask_logged (closing ticket volume) d = refl

  ask_submitted :
      (q : Request F) (m : MockOrderExecutor F)
      → (ask mock_executor q m).1.submitted ≡ m.submitted ++ submissions (q ∷ [])
  unfolding mock_executor
  ask_submitted (submission plan) m = refl
  ask_submitted (cancellation ticket) m = sym (append-nil m.submitted)
  ask_submitted (closing ticket volume) m = sym (append-nil m.submitted)

  submissions-cons :
      (q : Request F) (qs : List (Request F))
      → submissions (q ∷ qs) ≡ submissions (q ∷ []) ++ submissions qs
  submissions-cons (submission plan) qs = refl
  submissions-cons (cancellation ticket) qs = refl
  submissions-cons (closing ticket volume) qs = refl

  -- The dry run is the mock with a log: over any sequence of requests it gives the results that the
  -- mock gives and records what the mock records, and its log grows by one line for each request, in
  -- their order; the recorded plans grow by exactly the submitted ones.
  pub ask_all-dry_run :
      (qs : List (Request F)) (d : DryRunExecutor F)
      → let dry = ask_all dry_run_executor qs d in
        let plain = ask_all mock_executor qs d.delegate in
        (dry.0 ≡ plain.0)
        × (dry.1.delegate ≡ plain.1)
        × (dry.1.log ≡ d.log ++ map line_of qs)
        × (plain.1.submitted ≡ d.delegate.submitted ++ submissions qs)
  unfolding ask_all
  ask_all-dry_run [] d = (refl, refl, sym (append-nil d.log), sym (append-nil d.delegate.submitted))
  ask_all-dry_run (q ∷ qs) d =
      let m = (ask mock_executor q d.delegate).1 in
      let log = d.log ++ (line_of q ∷ []) in
      let (results, delegates, logs, plans) =
        ask_all-dry_run qs (record { delegate = m; log = log }) in
      rw (ask_logged q d) (
        ap (◌∷◌ (ask mock_executor q d.delegate).0) results,
        delegates,
        logs ∙ append_assoc d.log (line_of q ∷ []) (map line_of qs),
        plans
            ∙ ap (λ xs. xs ++ submissions qs) (ask_submitted q d.delegate)
            ∙ append_assoc d.delegate.submitted (submissions (q ∷ [])) (submissions qs)
            ∙ ap (λ xs. d.delegate.submitted ++ xs) (sym (submissions-cons q qs)),
      )
