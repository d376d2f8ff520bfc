-- ===== src/Pipeline/GridCycle/Laws.antt =====
-- Proofs about pipeline/grid_cycle.py: the loop over the sides and the regime filter.
use mt5_mcp_trading_framewor.Common.{
  ◌≡◌, refl, ap, ◌∙◌, ◌++◌, ◌⊎◌, inl, inr, true, Option, none, some, List, [], ◌∷◌, arith,
}
use mt5_mcp_trading_framewor.Common.Outcome.{Outcome, Error, ok, raised}
use mt5_mcp_trading_framewor.Common.Action.{Action}
use mt5_mcp_trading_framewor.Float.{Float}
use mt5_mcp_trading_framewor.Domain.{Side, ExecutionResult, MarketBar, TradeIntent, OrderPlan}
use mt5_mcp_trading_framewor.State.Models.{LocalOrderRecord}
use mt5_mcp_trading_framewor.Pipeline.Interfaces.{MarketDataSource, AccountReader, OrderExecutor}
use mt5_mcp_trading_framewor.Pipeline.GridSide.{GridInputs, side_plan}
use mt5_mcp_trading_framewor.Pipeline.GridCycle.{
  finished, GridSettings, run_sides, tally, is_trending, run_grid_cycle,
}

module _ {A : Type 0} where
  append_nil : (xs : List A) → xs ++ [] ≡ xs
  append_nil [] = refl
  append_nil (x ∷ xs) = ap (◌∷◌ x) (append_nil xs)

  append_snoc : (xs : List A) (x : A) (ys : List A) → (xs ++ x ∷ []) ++ ys ≡ xs ++ x ∷ ys
  append_snoc [] x ys = refl
  append_snoc (z ∷ zs) x ys = ap (◌∷◌ z) (append_snoc zs x ys)

module _ {F : Type 0} where
  -- of the outcomes of submissions, the results that were returned and the errors that were raised
  abbrev pub results_of : List (Side × Outcome (ExecutionResult F)) → List (ExecutionResult F)
  results_of [] = []
  results_of ((side, ok result) ∷ log) = result ∷ results_of log
  results_of ((side, raised e) ∷ log) = results_of log

  abbrev pub errors_of : List (Side × Outcome (ExecutionResult F)) → List (Side × Error)
  errors_of [] = []
  errors_of ((side, ok result) ∷ log) = errors_of log
  errors_of ((side, raised e) ∷ log) = (side, e) ∷ errors_of log

  abbrev reported :
      List (ExecutionResult F) × List (Side × Error)
      → List (Side × Outcome (ExecutionResult F))
      → List (ExecutionResult F) × List (Side × Error)
  reported (results, errors) log = (results ++ results_of log, errors ++ errors_of log)

  tally-reported :
      (side : Side) (r : Outcome (ExecutionResult F))
      (log : List (Side × Outcome (ExecutionResult F)))
      (acc : List (ExecutionResult F) × List (Side × Error))
      → reported (tally side r acc) log ≡ reported acc ((side, r) ∷ log)
  tally-reported side (ok result) log (results, errors) =
      ap (λ xs. (xs, errors ++ errors_of log)) (append_snoc results result (results_of log))
  tally-reported side (raised e) log (results, errors) =
      ap (λ xs. (results ++ results_of log, xs)) (append_snoc errors (side, e) (errors_of log))

module _ {S F : Type 0} where
  -- the plans submitted one after another, each in the state that the one before left, whether or not
  -- that one raised, with the outcome of each
  abbrev pub submit_all :
      OrderExecutor S F
      → List (Side × OrderPlan F)
      → S
      → List (Side × Outcome (ExecutionResult F)) × S
  submit_all executor [] s = ([], s)
  submit_all executor ((side, plan) ∷ plans) s =
      let (r, s1) = executor.submit plan s in
      let (log, s2) = submit_all executor plans s1 in ((side, r) ∷ log, s2)

module _ {F : Type 0} ⦃f : Float F⦄ where
  -- the plans that the sides give, in order: one for each side that is not skipped
  abbrev pub Plans : GridInputs F → List (TradeIntent F) → List (Side × OrderPlan F) → Type 0
  Plans i [] plans = plans ≡ []
  Plans i (intent ∷ rest) plans =
      ((side_plan i intent ≡ ok none) × Plans i rest plans)
      ⊎ ((plan : OrderPlan F) × (later : List (Side × OrderPlan F)) × (side_plan i intent
            ≡ ok (some plan))
          × (plans ≡ (intent.side, plan) ∷ later)
          × Plans i rest later)

module _ {S F : Type 0} ⦃f : Float F⦄ where
  run_sides-some :
      (executor : OrderExecutor S F) (i : GridInputs F) (a : TradeIntent F)
      (rest : List (TradeIntent F)) (acc : List (ExecutionResult F) × List (Side × Error))
      {p : OrderPlan F} (s : S)
      → side_plan i a ≡ ok (some p)
      → run_sides executor i (a ∷ rest) acc s
        ≡ run_sides executor i rest
            (tally a.side (executor.submit p s).0 acc)
            (executor.submit p s).1
  unfolding run_sides
  run_sides-some executor i a rest acc s e = ground (arith, e)

  run_sides-none :
      (executor : OrderExecutor S F) (i : GridInputs F) (a : TradeIntent F)
      (rest : List (TradeIntent F)) (acc : List (ExecutionResult F) × List (Side × Error)) (s : S)
      → side_plan i a ≡ ok none
      → run_sides executor i (a ∷ rest) acc s ≡ run_sides executor i rest acc s
  unfolding run_sides
  run_sides-none executor i a rest acc s e = ground (arith, e)

  run_sides_from :
      (executor : OrderExecutor S F) (i : GridInputs F) (intents : List (TradeIntent F))
      (plans : List (Side × OrderPlan F)) (acc : List (ExecutionResult F) × List (Side × Error))
      (s : S)
      → Plans i intents plans
      → run_sides executor i intents acc s
        ≡ (ok (reported acc (submit_all executor plans s).0), (submit_all executor plans s).1)
  unfolding run_sides
  run_sides_from executor i [] plans (results, errors) s h =
      rw (h, append_nil results, append_nil errors) refl
  run_sides_from executor i (a ∷ rest) plans acc s (inl (e, h)) =
      run_sides-none executor i a rest acc s e ∙ run_sides_from executor i rest plans acc s h
  run_sides_from executor i (a ∷ rest) plans acc s (inr (p, later, e, same, h)) =
      let r = (executor.submit p s).0 in
      let s1 = (executor.submit p s).1 in
      let log = (submit_all executor later s1).0 in
      rw same (
        run_sides-some executor i a rest acc s e
        ∙ run_sides_from executor i rest later (tally a.side r acc) s1 h
        ∙ ap (λ x. (ok x, (submit_all executor later s1).1)) (tally-reported a.side r log acc))

  -- If no side's plan raises, every plan that comes out is submitted, in order and each in the state
  -- that the one before left, whether or not that one raised; and the loop returns the results of all
  -- that returned and, with their sides, the errors of all that raised, each in order.
  pub run_sides_lem :
      (executor : OrderExecutor S F) (i : GridInputs F) (intents : List (TradeIntent F))
      (plans : List (Side × OrderPlan F)) (s : S)
      → Plans i intents plans
      → run_sides executor i intents ([], []) s ≡ (
        ok (results_of (submit_all executor plans s).0, errors_of (submit_all executor plans s).0),
        (submit_all executor plans s).1,
      )
  run_sides_lem executor i intents plans s h = run_sides_from executor i intents plans ([], []) s h

  -- A side that the guards reject or that has no admissible price submits nothing, and leaves the
  -- other one as if it were alone.
  pub run_sides_skip :
      (executor : OrderExecutor S F) (i : GridInputs F) (a b : TradeIntent F) (s : S)
      → side_plan i a ≡ ok none
      → run_sides executor i (a ∷ b ∷ []) ([], []) s ≡ run_sides executor i (b ∷ []) ([], []) s
  unfolding run_sides
  run_sides_skip executor i a b s e = ground (arith, e)

  -- In a market whose efficiency ratio reaches the limit, the cycle ends with no result and does
  -- nothing but read the bars.
  pub run_grid_cycle_trending :
      (market : MarketDataSource S F) (account : AccountReader S F) (executor : OrderExecutor S F)
      (g : GridSettings F) (store : Option (Action S (List (LocalOrderRecord F))))
      {bars : List (MarketBar F)} {s s' : S}
      → market.get_bars g.symbol g.timeframe g.bars_count s ≡ (ok bars, s')
      → is_trending g.grid_config.max_entry_efficiency_ratio bars
          g.grid_config.efficiency_ratio_period
        ≡ ok true
      → run_grid_cycle market account executor g store s ≡ (ok (finished []), s')
  unfolding run_grid_cycle
  run_grid_cycle_trending market account executor g store e t = ground (arith, e, t)
