-- ===== src/Pipeline/RunnerCycle/Laws.antt =====
-- Proofs about pipeline/runner_cycle.py: what the runner may submit.
use mt5_mcp_trading_framewor.Common.{
  ◌≡◌, ◌<◌, refl, not, if◌then◌else◌, Option, none, some, List, arith, Bool-cases, inl, inr, sym,
  ap, ◌∙◌, subst, subst₂, length,
}
use mt5_mcp_trading_framewor.Common.Outcome.{Outcome, ok, raised}
use mt5_mcp_trading_framewor.Common.Action.{Action}
use mt5_mcp_trading_framewor.Float.{Float, IsOrdered, IsArith, ◌≼◌, nought}
use mt5_mcp_trading_framewor.Domain.{
  Side, buy, sell, MarketBar, Signal, flat, TradeIntent, OrderPlan, market_order, RiskDecision,
}
use mt5_mcp_trading_framewor.Risk.Laws.{combine_iff, check_position_limit_iff}
use mt5_mcp_trading_framewor.Sizing.{to_sized_intent}
use mt5_mcp_trading_framewor.Strategy.Runner.{
  compute_stop_distances, runner_signal, signal_to_trade_intent,
}
use mt5_mcp_trading_framewor.Planning.{clamp_volume}
use mt5_mcp_trading_framewor.Planning.Laws.{IsPriced, build_order_plan_lem}
use mt5_mcp_trading_framewor.State.Models.{LocalOrderRecord}
use mt5_mcp_trading_framewor.Pipeline.Interfaces.{MarketDataSource, AccountReader, OrderExecutor}
use mt5_mcp_trading_framewor.Pipeline.Stops.{stops, IsBracketed, stops-IsBracketed}
use mt5_mcp_trading_framewor.Pipeline.RunnerCycle.{
  RunnerInputs, RunnerSettings, market_price, runner_sized, runner_guards, runner_options,
  plan_with_distances, plan_with_outcome, runner_plan_if_approved, runner_plan, run_runner_cycle,
}

module _ {F : Type 0} ⦃f : Float F⦄ where
  runner_plan-eq-ok :
      (i : RunnerInputs F) (intent : TradeIntent F) {m : Option (OrderPlan F)}
      → runner_plan i intent ≡ ok m
      → (c : RiskDecision F) × (runner_guards i intent ≡ ok c)
        × (runner_plan_if_approved i intent c ≡ ok m)
  unfolding runner_plan
  runner_plan-eq-ok i intent e = ground (arith, e)

  outcome-eq-some :
      (i : RunnerInputs F) (intent : TradeIntent F) (c : RiskDecision F) (m : Outcome (F × F))
      {plan : OrderPlan F}
      → plan_with_outcome i intent c m ≡ ok (some plan)
      → (d : F × F) × (m ≡ ok d) × (plan_with_distances i intent c d ≡ ok (some plan))
  outcome-eq-some i intent c (raised x) e = cc
  outcome-eq-some i intent c (ok d) e = (d, refl, e)

  approved-eq-some :
      (i : RunnerInputs F) (intent : TradeIntent F) (c : RiskDecision F) {plan : OrderPlan F}
      → runner_plan_if_approved i intent c ≡ ok (some plan)
      → (d : F × F) × (compute_stop_distances i.bars i.symbol_info.point i.runner_config ≡ ok d)
        × (plan_with_distances i intent c d ≡ ok (some plan))
  approved-eq-some i intent c {plan} e =
      let distances = compute_stop_distances i.bars i.symbol_info.point i.runner_config in
      elim (Bool-cases c.approved) [
        | inr refused ↦ ground arith
        | inl granted ↦ outcome-eq-some i intent c distances {plan = plan} (
            sym
              (ap (λ b. if not b then ok none else plan_with_outcome i intent c distances) granted)
            ∙ e)
      ]

  -- the price that a market order without a reference is planned at
  market-IsPriced :
      (i : RunnerInputs F) (side : Side) {price : Option F}
      → IsPriced market_order side none i.symbol_info i.tick price
      → price ≡ some (market_price side i.tick)
  market-IsPriced i buy e = e
  market-IsPriced i sell e = e

module _ {F : Type 0} ⦃f : Float F⦄ (ord : IsOrdered F) (ar : IsArith F) where
  -- Whatever the runner submits for a market intent without a reference price was approved with fewer positions open than the limit, is priced at
  -- the side of the tick that a fill takes, has the clamped volume, and has its stop-loss and
  -- take-profit on their sides of that price, if the distances are not negative and the tick's prices
  -- have no more decimals than the symbol.
  pub runner_plan_lem :
      (i : RunnerInputs F) (intent : TradeIntent F) {plan : OrderPlan F} {d : F × F}
      → intent.desired_order_type ≡ market_order
      → intent.reference_price ≡ none
      → compute_stop_distances i.bars i.symbol_info.point i.runner_config ≡ ok d
      → nought ≼ d.0
      → nought ≼ d.1
      → f.round_to (market_price intent.side i.tick) i.symbol_info.digits
        ≡ market_price intent.side i.tick
      → runner_plan i intent ≡ ok (some plan)
      → (length i.positions < i.runner_config.max_concurrent_positions)
        × (plan.price ≡ some (market_price intent.side i.tick))
        × (plan.volume ≡ clamp_volume (runner_sized i intent).volume i.symbol_info)
        × IsBracketed intent.side (market_price intent.side i.tick) (plan.sl, plan.tp)
  unfolding to_sized_intent
  runner_plan_lem i intent {plan} {d} market bare ed hs ht aligned e =
      let (c, ec, e₂) = runner_plan-eq-ok i intent {m = some plan} e in
      let (d', ed', e₃) = approved-eq-some i intent c {plan = plan} e₂ in
      let same : d' ≡ d = cc in
      let (approved, fits) =
        build_order_plan_lem (runner_sized i intent) c i.symbol_info i.tick
          (runner_options i.magic
            (stops intent.side (market_price intent.side i.tick) d.0 d.1 i.symbol_info.digits))
          {plan = plan} (subst (λ x. plan_with_distances i intent c x ≡ ok (some plan)) same e₃) in
      let (_, (within, _)) = (combine_iff _ ec).0.0 approved in
      (
        (check_position_limit_iff i.positions i.runner_config.max_concurrent_positions).0 within,
        market-IsPriced i intent.side (
            subst₂ (λ t m. IsPriced t intent.side m i.symbol_info i.tick plan.price) market bare
              fits.7),
        fits.6,
        subst₂ (λ x y. IsBracketed intent.side (market_price intent.side i.tick) (x, y))
            (sym fits.4) (sym fits.5)
            (stops-IsBracketed ord ar intent.side (market_price intent.side i.tick) d.0 d.1
              i.symbol_info.digits hs ht aligned),
      )

module _ {S F : Type 0} ⦃f : Float F⦄ where
  -- On a flat signal the cycle ends with no result and does nothing but read the bars.
  pub run_runner_cycle_flat :
      (market : MarketDataSource S F) (account : AccountReader S F) (executor : OrderExecutor S F)
      (g : RunnerSettings F) (store : Option (Action S (List (LocalOrderRecord F))))
      {bars : List (MarketBar F)} {signal : Signal F} {s s' : S}
      → market.get_bars g.symbol g.timeframe g.bars_count s ≡ (ok bars, s')
      → runner_signal bars g.runner_config ≡ ok signal
      → signal.direction ≡ flat
      → run_runner_cycle market account executor g store s ≡ (ok none, s')
  unfolding run_runner_cycle signal_to_trade_intent
  run_runner_cycle_flat market account executor g store e₁ e₂ e₃ = ground (arith, e₁, e₂, e₃)
