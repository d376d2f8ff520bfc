-- ===== src/Strategy/Runner.antt =====
-- strategy/runner.py and trade_intent/runner.py.
pub mod Laws
use Prim.Native.Nat.{max as nat_max}
use mt5_mcp_trading_framewor.Common.{
  ℕ, ◌+◌, Option, none, some, List, [], ◌∷◌, map, if◌then◌else◌, ltb, length, last_of,
}
use mt5_mcp_trading_framewor.Common.Outcome.{Outcome, ok, raised, value_error, index_error, ◌>>=◌}
use mt5_mcp_trading_framewor.Float.{Float, ◌⊗◌, ◌⊏◌, nought, max}
use mt5_mcp_trading_framewor.Features.{atr, macd}
use mt5_mcp_trading_framewor.Domain.{
  MarketBar, Signal, Direction, long, short, flat, Side, buy, sell, TradeIntent, market_order,
  macd_signal,
}

pub record RunnerStrategyConfig (F : Type 0) : Type 0 where
  pub fast : ℕ
  pub slow : ℕ
  pub min_bars_floor : ℕ
  pub atr_period : ℕ
  pub sl_atr_mult : F
  pub tp_atr_mult : F
  pub min_stop_distance_points : F
  pub min_stop_distance_fraction_of_price : F
  pub max_concurrent_positions : ℕ

module _ {F : Type 0} where
  abbrev pub min_required_bars : RunnerStrategyConfig F → ℕ
  min_required_bars config = nat_max config.min_bars_floor (config.slow + 5)

module _ {F : Type 0} ⦃f : Float F⦄ where
  unfoldable pub direction_of : F → Direction
  direction_of macd_value =
      if nought ⊏ macd_value then long else if macd_value ⊏ nought then short else flat

  abbrev signal_at : RunnerStrategyConfig F → MarketBar F → F → Signal F
  unfolding direction_of
  signal_at config last macd_value = record {
    symbol = last.symbol;
    strategy_name = "runner";
    direction = direction_of macd_value;
    timestamp = last.time;
    rationale = macd_signal macd_value config.fast config.slow;
  }

  abbrev signal_of : List (MarketBar F) → RunnerStrategyConfig F → Outcome (Signal F)
  unfolding direction_of
  signal_of [] config = raised index_error
  signal_of (b ∷ bs) config = do
    macd_value ← macd (map (λ x. x.close) (b ∷ bs)) config.fast config.slow
    ok (signal_at config (last_of b bs) macd_value)

  unfoldable pub runner_signal : List (MarketBar F) → RunnerStrategyConfig F → Outcome (Signal F)
  unfolding direction_of
  runner_signal bars config =
      if ltb (length bars) (min_required_bars config)
      then raised value_error
      else signal_of bars config

  -- `base`, in its two steps
  unfoldable pub stop_base : F → F → F → RunnerStrategyConfig F → F
  stop_base atr_value last_close point config =
      let base =
        if nought ⊏ atr_value then atr_value else config.min_stop_distance_points ⊗ point in
      max base (last_close ⊗ config.min_stop_distance_fraction_of_price)

  abbrev distances : F → RunnerStrategyConfig F → F × F
  distances base config = (base ⊗ config.sl_atr_mult, base ⊗ config.tp_atr_mult)

  unfoldable pub compute_stop_distances :
      List (MarketBar F) → F → RunnerStrategyConfig F → Outcome (F × F)
  unfolding stop_base
  compute_stop_distances [] point config =
      ◌>>=◌ {A = F} (atr [] config.atr_period) (λ _. raised index_error)
  compute_stop_distances (b ∷ bs) point config = do
    atr_value ← atr (b ∷ bs) config.atr_period
    ok (distances (stop_base atr_value (last_of b bs).close point config) config)

abbrev market_intent : {F : Type 0} → Signal F → Side → TradeIntent F
market_intent signal side = record {
  symbol = signal.symbol;
  side = side;
  strategy_name = signal.strategy_name;
  desired_order_type = market_order;
  timestamp = signal.timestamp;
  reference_price = none;
  signal_ref = some signal;
}

abbrev intent_for : {F : Type 0} → Direction → Signal F → Option (TradeIntent F)
intent_for flat signal = none
intent_for long signal = some (market_intent signal buy)
intent_for short signal = some (market_intent signal sell)

unfoldable pub signal_to_trade_intent : {F : Type 0} → Signal F → Option (TradeIntent F)
signal_to_trade_intent signal = intent_for signal.direction signal
