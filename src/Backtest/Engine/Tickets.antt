-- ===== src/Backtest/Engine/Tickets.antt =====
-- Proofs about backtest/engine.py: the tickets of the ledger through the executor, the cycles and
-- the bars.
use mt5_mcp_trading_framewor.Common.{
  ℕ, zero, suc, ◌+◌, ◌-◌, ◌%◌, ◌==◌, true, Option, none, some, List, length, if◌then◌else◌, ltb,
}
use mt5_mcp_trading_framewor.Common.Outcome.{value_error}
use mt5_mcp_trading_framewor.Common.Action.{
  Action, Preserves, ◌>>◌, >>=-Preserves, lift, lift-Preserves, pure, raise_if, raise_if-Preserves,
  if-Preserves,
}
use mt5_mcp_trading_framewor.Float.{Float}
use mt5_mcp_trading_framewor.Domain.{
  MarketBar, OrderPlan, OrderType, market_order, limit_order, SymbolInfo,
}
use mt5_mcp_trading_framewor.Pipeline.GridCycle.{
  GridCycle, finished, grid_cycle_error, is_trending, run_grid_cycle,
}
use mt5_mcp_trading_framewor.Pipeline.RunnerCycle.{run_runner_cycle}
use mt5_mcp_trading_framewor.Pipeline.Preservation.{
  run_grid_cycle-Preserves, run_runner_cycle-Preserves, KeepsMarket, KeepsAccount, KeepsSubmit,
}
use mt5_mcp_trading_framewor.Backtest.Ledger.{
  BacktestLedger, add_pending_order, add_open_position, new_ledger,
}
use mt5_mcp_trading_framewor.Backtest.Ledger.Laws.{
  IsSound, add_pending_order-IsSound, open_fresh-IsSound, new_ledger-IsSound,
}
use mt5_mcp_trading_framewor.Backtest.Replay.{
  View, view, market_data, account_reader, half_spread_price,
}
use mt5_mcp_trading_framewor.Backtest.Executor.{
  submit, submit_at, submit_limit, order_executor, new_order, new_position, fill_price,
  filled_result, bare_result,
}
use mt5_mcp_trading_framewor.Backtest.Fills.{check_fills_and_exits}
use mt5_mcp_trading_framewor.Backtest.Fills.Laws.{check_fills_and_exits-IsSound}
use mt5_mcp_trading_framewor.Backtest.Engine.{
  BacktestSettings, evaluate_cycles, bar_step, replay, run_backtest, run_grid, run_runner, settle,
  grid_settings, runner_settings,
}

module _ {F : Type 0} ⦃f : Float F⦄ where
  submit_limit-IsSound :
      (plan : OrderPlan F) (bar : MarketBar F) (price : Option F)
      → Preserves IsSound (submit_limit plan bar price)
  submit_limit-IsSound plan bar none l h = h
  submit_limit-IsSound plan bar (some price) l h =
      >>=-Preserves IsSound (add_pending_order (new_order plan price bar.time))
        (λ ticket. pure (bare_result (some plan) true ticket))
        (add_pending_order-IsSound (new_order plan price bar.time)) (λ ticket l h. h) l h

  submit_at-IsSound :
      (info : SymbolInfo F) (multiplier : F) (plan : OrderPlan F) (t : OrderType)
      (bar : MarketBar F)
      → Preserves IsSound (submit_at info multiplier plan t bar)
  submit_at-IsSound info multiplier plan limit_order bar = submit_limit-IsSound plan bar plan.price
  submit_at-IsSound info multiplier plan market_order bar =
      let price = fill_price plan.side bar (half_spread_price bar info multiplier) in
      >>=-Preserves IsSound (add_open_position (new_position plan price bar.time) none)
        (λ ticket. pure (filled_result plan ticket price))
        (open_fresh-IsSound (new_position plan price bar.time)) (λ ticket l h. h)

  submit-IsSound :
      (v : View F) (info : SymbolInfo F) (multiplier : F)
      → KeepsSubmit IsSound (order_executor v info multiplier)
  unfolding order_executor submit
  submit-IsSound v info multiplier plan =
      >>=-Preserves IsSound (lift v.current_bar) (submit_at info multiplier plan plan.order_type)
        (lift-Preserves IsSound v.current_bar)
        (submit_at-IsSound info multiplier plan plan.order_type)

  market-IsSound :
      (v : View F) (info : SymbolInfo F) (multiplier : F)
      → KeepsMarket IsSound (market_data v info multiplier)
  unfolding market_data
  market-IsSound v info multiplier = (λ a b c l h. h, λ a l h. h, λ a l h. h)

  account-IsSound : KeepsAccount IsSound (account_reader {F = F})
  unfolding account_reader
  account-IsSound = (λ a b l h. h, λ a b l h. h)

  settle-IsSound : (r : GridCycle F) → Preserves IsSound (settle r)
  settle-IsSound (finished results) l h = h
  settle-IsSound (grid_cycle_error results errors) l h = h

  run_grid-IsSound : (c : BacktestSettings F) (v : View F) → Preserves IsSound (run_grid c v)
  run_grid-IsSound c v =
      let market = market_data v c.symbol_info c.spread_multiplier in
      let executor = order_executor v c.symbol_info c.spread_multiplier in
      >>=-Preserves IsSound (run_grid_cycle market account_reader executor (grid_settings c) none)
        settle
        (run_grid_cycle-Preserves IsSound market account_reader executor
          (market-IsSound v c.symbol_info c.spread_multiplier) account-IsSound
          (submit-IsSound v c.symbol_info c.spread_multiplier) (grid_settings c))
        settle-IsSound

  run_runner-IsSound : (c : BacktestSettings F) (v : View F) → Preserves IsSound (run_runner c v)
  run_runner-IsSound c v =
      let market = market_data v c.symbol_info c.spread_multiplier in
      let executor = order_executor v c.symbol_info c.spread_multiplier in
      >>=-Preserves IsSound
        (run_runner_cycle market account_reader executor (runner_settings c) none) (λ _. pure tt)
        (run_runner_cycle-Preserves IsSound market account_reader executor
          (market-IsSound v c.symbol_info c.spread_multiplier) account-IsSound
          (submit-IsSound v c.symbol_info c.spread_multiplier) (runner_settings c))
        (λ _ l h. h)

  evaluate_cycles-IsSound :
      (c : BacktestSettings F) (v : View F) → Preserves IsSound (evaluate_cycles c v)
  evaluate_cycles-IsSound c v =
      let filter =
        is_trending c.grid_max_entry_efficiency_ratio (v.visible_bars (suc c.start))
          c.grid_efficiency_ratio_period in
      >>=-Preserves IsSound (lift filter)
        (λ skip_grid. (if skip_grid then pure tt else run_grid c v) >> run_runner c v)
        (lift-Preserves IsSound filter)
        (λ skip_grid.
          >>=-Preserves IsSound (if skip_grid then pure tt else run_grid c v) (λ _. run_runner c v)
            (if-Preserves IsSound skip_grid (pure tt) (run_grid c v) (λ l h. h)
              (run_grid-IsSound c v))
            (λ _. run_runner-IsSound c v))

  bar_step-IsSound :
      (c : BacktestSettings F) (k : ℕ) (v : View F) → Preserves IsSound (bar_step c k v)
  unfolding bar_step
  bar_step-IsSound c k v =
      let cycles = if k % c.cycle_interval_bars == 0 then evaluate_cycles c v else pure tt in
      >>=-Preserves IsSound (lift v.current_bar) (λ bar. check_fills_and_exits bar >> cycles)
        (lift-Preserves IsSound v.current_bar)
        (λ bar.
          >>=-Preserves IsSound (check_fills_and_exits bar) (λ _. cycles)
            (check_fills_and_exits-IsSound bar)
            (λ _.
              if-Preserves IsSound (k % c.cycle_interval_bars == 0) (evaluate_cycles c v) (pure tt)
                (evaluate_cycles-IsSound c v) (λ l h. h)))

  replay-IsSound :
      (bars : List (MarketBar F)) (c : BacktestSettings F) (n k : ℕ)
      → Preserves IsSound (replay bars c n k)
  unfolding replay
  replay-IsSound bars c zero k l h = h
  replay-IsSound bars c (suc n) k l h =
      let v = view (record { bars = bars; index = c.start + k }) in
      >>=-Preserves IsSound (bar_step c k v) (λ _. replay bars c n (suc k)) (bar_step-IsSound c k v)
        (λ _. replay-IsSound bars c n (suc k)) l h

  -- However a replay ends, every ticket in its ledger is one that was given out, and no ticket is both
  -- a pending order's and an open position's.
  pub run_backtest-IsSound :
      (bars : List (MarketBar F)) (c : BacktestSettings F) → IsSound (run_backtest bars c).1
  unfolding run_backtest
  run_backtest-IsSound bars c =
      let start : Action (BacktestLedger F) (Unit {0}) = replay bars c (length bars - c.start) 0 in
      let interval = ltb c.cycle_interval_bars 1 in
      >>=-Preserves IsSound (raise_if (ltb (length bars) (suc c.start)) value_error)
        (λ _. raise_if interval value_error >> start)
        (raise_if-Preserves IsSound (ltb (length bars) (suc c.start)) value_error)
        (λ _.
          >>=-Preserves IsSound (raise_if interval value_error) (λ _. start)
            (raise_if-Preserves IsSound interval value_error)
            (λ _. replay-IsSound bars c (length bars - c.start) 0))
        new_ledger (new_ledger-IsSound F)
