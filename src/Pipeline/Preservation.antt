-- ===== src/Pipeline/Preservation.antt =====
-- Proofs about pipeline/grid_cycle.py and runner_cycle.py: properties of the surroundings through a
-- cycle.
use mt5_mcp_trading_framewor.Common.{
  ℕ, Option, none, some, List, [], ◌∷◌, String, if◌then◌else◌, inl, inr,
}
use mt5_mcp_trading_framewor.Common.Outcome.{Error, Outcome-Option-cases}
use mt5_mcp_trading_framewor.Common.Action.{
  Action, Preserves, ◌>>=◌, >>=-Preserves, lift, lift-Preserves, pure, if-Preserves,
}
use mt5_mcp_trading_framewor.Float.{Float}
use mt5_mcp_trading_framewor.Domain.{
  Side, Signal, MarketBar, TradeIntent, OrderPlan, ExecutionResult, PositionState, OrderState,
  SymbolInfo, Tick, GridLevels,
}
use mt5_mcp_trading_framewor.Strategy.Grid.{compute_grid_levels, grid_levels_to_trade_intents}
use mt5_mcp_trading_framewor.Strategy.Runner.{runner_signal, signal_to_trade_intent}
use mt5_mcp_trading_framewor.Pipeline.Interfaces.{
  MarketDataSource, AccountReader, OrderExecutor, read_exposure,
}
use mt5_mcp_trading_framewor.Pipeline.GridSide.{GridInputs, side_plan}
use mt5_mcp_trading_framewor.Pipeline.GridCycle.{
  GridCycle, finished, GridSettings, run_sides, tally, close_cycle, is_trending, inputs_of, both,
  propose_and_submit, run_grid_cycle,
}
use mt5_mcp_trading_framewor.Pipeline.RunnerCycle.{
  RunnerSettings, runner_plan, runner_inputs, submit_plan, act_on_intent, run_runner_cycle,
}

module _ {S F : Type 0} where
  -- the reads keep `P`
  abbrev pub KeepsMarket : (S → Type 0) → MarketDataSource S F → Type 0
  KeepsMarket P market =
      ((symbol timeframe : String) (count : ℕ)
        → Preserves P (market.get_bars symbol timeframe count))
      × ((symbol : String) → Preserves P (market.get_tick symbol))
      × ((symbol : String) → Preserves P (market.get_symbol_info symbol))

  abbrev pub KeepsAccount : (S → Type 0) → AccountReader S F → Type 0
  KeepsAccount P account =
      ((symbol : Option String) (magic : Option ℕ)
        → Preserves P (account.get_positions symbol magic))
      × ((symbol : Option String) (magic : Option ℕ)
          → Preserves P (account.get_orders symbol magic))

  abbrev pub KeepsSubmit : (S → Type 0) → OrderExecutor S F → Type 0
  KeepsSubmit P executor = (plan : OrderPlan F) → Preserves P (executor.submit plan)

module _ {S F : Type 0} ⦃f : Float F⦄ (P : S → Type 0) (market : MarketDataSource S F)
    (account : AccountReader S F) (executor : OrderExecutor S F) (km : KeepsMarket P market)
    (ka : KeepsAccount P account) (ke : KeepsSubmit P executor) where
  read_exposure-Preserves :
      (symbol : String) (magic : ℕ) → Preserves P (read_exposure account none symbol magic)
  unfolding read_exposure
  read_exposure-Preserves symbol magic =
      let both_lists : List (PositionState F)
          → Action S (List (PositionState F) × List (OrderState F)) =
        λ positions.
          account.get_orders (some symbol) (some magic) >>= λ orders. pure (positions, orders) in
      >>=-Preserves P (account.get_positions (some symbol) (some magic)) both_lists (ka.0 _ _)
        (λ positions.
          >>=-Preserves P (account.get_orders (some symbol) (some magic))
            (λ orders. pure {A = List (PositionState F) × List (OrderState F)} (positions, orders))
            (ka.1 _ _) (λ orders s p. p))

  run_sides-Preserves :
      (i : GridInputs F) (intents : List (TradeIntent F))
      (acc : List (ExecutionResult F) × List (Side × Error))
      → Preserves P (run_sides executor i intents acc)
  unfolding run_sides
  run_sides-Preserves i [] acc s p = p
  run_sides-Preserves i (intent ∷ rest) acc s p = elim (Outcome-Option-cases (side_plan i intent)) [
    | inl (e, h) ↦ rw (h, run_sides) p
    | inr (inl h) ↦ rw (h, run_sides) (run_sides-Preserves i rest acc s p)
    | inr (inr (plan, h)) ↦
        let (r, s') = executor.submit plan s in
        rw (h, run_sides) (run_sides-Preserves i rest (tally intent.side r acc) s' (ke plan s p))
  ]

  propose-Preserves :
      (g : GridSettings F) (bars : List (MarketBar F))
      → Preserves P (propose_and_submit market account executor g none bars)
  unfolding propose_and_submit
  propose-Preserves g bars =
      let submitted : SymbolInfo F
          → Tick F
          → (List (PositionState F) × List (OrderState F))
          → GridLevels F
          → Action S (GridCycle F) =
        λ symbol_info tick exposure levels.
          run_sides executor (inputs_of g symbol_info tick exposure levels)
            (both (grid_levels_to_trade_intents levels "grid")) ([], [])
          >>= λ acc. pure (close_cycle acc) in
      let levelled : SymbolInfo F
          → Tick F
          → (List (PositionState F) × List (OrderState F))
          → Action S (GridCycle F) =
        λ symbol_info tick exposure.
          lift (compute_grid_levels bars symbol_info.point g.grid_config)
          >>= submitted symbol_info tick exposure in
      let exposed : SymbolInfo F → Tick F → Action S (GridCycle F) = λ symbol_info tick.
        read_exposure account none g.symbol g.magic >>= levelled symbol_info tick in
      >>=-Preserves P (market.get_symbol_info g.symbol)
        (λ symbol_info. market.get_tick g.symbol >>= exposed symbol_info) (km.2 g.symbol)
        (λ symbol_info.
          >>=-Preserves P (market.get_tick g.symbol) (exposed symbol_info) (km.1 g.symbol) (λ tick.
            >>=-Preserves P (read_exposure account none g.symbol g.magic)
              (levelled symbol_info tick) (read_exposure-Preserves g.symbol g.magic)
              (λ exposure.
                >>=-Preserves P (lift (compute_grid_levels bars symbol_info.point g.grid_config))
                  (submitted symbol_info tick exposure)
                  (lift-Preserves P (compute_grid_levels bars symbol_info.point g.grid_config))
                  (λ levels.
                    >>=-Preserves P
                      (run_sides executor (inputs_of g symbol_info tick exposure levels)
                        (both (grid_levels_to_trade_intents levels "grid")) ([], []))
                      (λ acc. pure (close_cycle acc))
                      (run_sides-Preserves (inputs_of g symbol_info tick exposure levels)
                        (both (grid_levels_to_trade_intents levels "grid")) ([], []))
                      (λ acc s p. p)))))

  -- If the adapters keep a property, so does a cycle of the grid without a store, however it ends.
  pub run_grid_cycle-Preserves :
      (g : GridSettings F) → Preserves P (run_grid_cycle market account executor g none)
  unfolding run_grid_cycle
  run_grid_cycle-Preserves g =
      let filtered : List (MarketBar F) → Action S (GridCycle F) = λ bars.
        lift (
          is_trending g.grid_config.max_entry_efficiency_ratio bars
            g.grid_config.efficiency_ratio_period)
        >>= λ skip.
            if skip
            then pure (finished [])
            else propose_and_submit market account executor g none bars in
      >>=-Preserves P (market.get_bars g.symbol g.timeframe g.bars_count) filtered (km.0 _ _ _)
        (λ bars.
          >>=-Preserves P
            (lift (
              is_trending g.grid_config.max_entry_efficiency_ratio bars
                g.grid_config.efficiency_ratio_period))
            (λ skip.
              if skip
              then pure (finished [])
              else propose_and_submit market account executor g none bars)
            (lift-Preserves P (
              is_trending g.grid_config.max_entry_efficiency_ratio bars
                g.grid_config.efficiency_ratio_period))
            (λ skip.
              if-Preserves P skip (pure (finished []))
                (propose_and_submit market account executor g none bars) (λ s p. p)
                (propose-Preserves g bars)))

  submit_plan-Preserves : (plan : Option (OrderPlan F)) → Preserves P (submit_plan executor plan)
  submit_plan-Preserves none s p = p
  submit_plan-Preserves (some plan) s p =
      >>=-Preserves P (executor.submit plan) (λ r. pure (some r)) (ke plan) (λ r s p. p) s p

  act_on_intent-Preserves :
      (g : RunnerSettings F) (bars : List (MarketBar F)) (intent : Option (TradeIntent F))
      → Preserves P (act_on_intent market account executor g none bars intent)
  unfolding act_on_intent
  act_on_intent-Preserves g bars none s p = p
  act_on_intent-Preserves g bars (some intent) s p =
      let planned : SymbolInfo F
          → Tick F
          → (List (PositionState F) × List (OrderState F))
          → Action S (Option (ExecutionResult F)) =
        λ symbol_info tick exposure.
          lift (runner_plan (runner_inputs g bars symbol_info tick exposure) intent)
          >>= submit_plan executor in
      let exposed : SymbolInfo F → Tick F → Action S (Option (ExecutionResult F)) =
        λ symbol_info tick.
          read_exposure account none g.symbol g.magic >>= planned symbol_info tick in
      >>=-Preserves P (market.get_symbol_info g.symbol)
        (λ symbol_info. market.get_tick g.symbol >>= exposed symbol_info) (km.2 g.symbol)
        (λ symbol_info.
          >>=-Preserves P (market.get_tick g.symbol) (exposed symbol_info) (km.1 g.symbol) (λ tick.
            >>=-Preserves P (read_exposure account none g.symbol g.magic) (planned symbol_info tick)
              (read_exposure-Preserves g.symbol g.magic)
              (λ exposure.
                >>=-Preserves P
                  (lift (runner_plan (runner_inputs g bars symbol_info tick exposure) intent))
                  (submit_plan executor)
                  (lift-Preserves P
                    (runner_plan (runner_inputs g bars symbol_info tick exposure) intent))
                  submit_plan-Preserves)))
        s p

  -- If the adapters keep a property, so does a cycle of the runner without a store, however it ends.
  pub run_runner_cycle-Preserves :
      (g : RunnerSettings F) → Preserves P (run_runner_cycle market account executor g none)
  unfolding run_runner_cycle
  run_runner_cycle-Preserves g =
      let acted : List (MarketBar F) → Signal F → Action S (Option (ExecutionResult F)) =
        λ bars signal.
          act_on_intent market account executor g none bars (signal_to_trade_intent signal) in
      >>=-Preserves P (market.get_bars g.symbol g.timeframe g.bars_count)
        (λ bars. lift (runner_signal bars g.runner_config) >>= acted bars) (km.0 _ _ _)
        (λ bars.
          >>=-Preserves P (lift (runner_signal bars g.runner_config)) (acted bars)
            (lift-Preserves P (runner_signal bars g.runner_config))
            (λ signal. act_on_intent-Preserves g bars (signal_to_trade_intent signal)))
