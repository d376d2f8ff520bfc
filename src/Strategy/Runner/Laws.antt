-- ===== src/Strategy/Runner/Laws.antt =====
-- Proofs about strategy/runner.py: the signal and the distances of the stops.
use mt5_mcp_trading_framewor.Common.{
  ◌≡◌, ◌↔◌, Option, none, some, List, ◌∷◌, map, arith, last_of, ltb, length, false,
}
use mt5_mcp_trading_framewor.Common.Outcome.{ok}
use mt5_mcp_trading_framewor.Float.{
  Float, IsOrdered, ◌⊗◌, ◌≼◌, ◌≺◌, nought, max, le-max_left, le-max_right, not_lt-le,
}
use mt5_mcp_trading_framewor.Features.{atr, macd}
use mt5_mcp_trading_framewor.Domain.{MarketBar, Signal, TradeIntent, Side, buy, sell, macd_signal}
use mt5_mcp_trading_framewor.Strategy.Runner.{
  RunnerStrategyConfig, min_required_bars, direction_of, runner_signal, signal_to_trade_intent,
  stop_base, compute_stop_distances,
}

-- the side of the intent, if there is one
abbrev pub intent_side : {F : Type 0} → Option (TradeIntent F) → Option Side
intent_side none = none
intent_side (some i) = some i.side

module _ {F : Type 0} ⦃f : Float F⦄ (ord : IsOrdered F) where
  -- On enough bars, when the MACD exists, there is a signal, and the intent made from it buys
  -- exactly when the MACD is positive and sells exactly when it is negative.
  pub runner_intent_iff :
      (b : MarketBar F) (bs : List (MarketBar F)) (config : RunnerStrategyConfig F) (m : F)
      → ltb (length (b ∷ bs)) (min_required_bars config) ≡ false
      → macd (map (λ (x : MarketBar F). x.close) (b ∷ bs)) config.fast config.slow ≡ ok m
      → (s : Signal F) × (runner_signal (b ∷ bs) config ≡ ok s)
        × ((intent_side (signal_to_trade_intent s) ≡ some buy) ↔ (nought ≺ m))
        × ((intent_side (signal_to_trade_intent s) ≡ some sell) ↔ (m ≺ nought))
  unfolding runner_signal signal_to_trade_intent
  runner_intent_iff b bs config m enough e = (
    record {
      symbol = (last_of b bs).symbol;
      strategy_name = "runner";
      direction = direction_of m;
      timestamp = (last_of b bs).time;
      rationale = macd_signal m config.fast config.slow;
    },
    rw (enough, e),
    ground (arith, ord.lt-eq-not-le nought m, ord.lt-eq-not-le m nought, ord.le_total nought m),
    ground (arith, ord.lt-eq-not-le nought m, ord.lt-eq-not-le m nought, ord.le_total nought m),
  )

  -- If the least distance in points is not negative and the distances are returned, both stop distances are multiples of one base, which is at least the average true range and at
  -- least the configured fraction of the latest close.
  pub compute_stop_distances_lem :
      (b : MarketBar F) (bs : List (MarketBar F)) (point a : F) (config : RunnerStrategyConfig F)
      {d : F × F}
      → nought ≼ config.min_stop_distance_points ⊗ point
      → atr (b ∷ bs) config.atr_period ≡ ok a
      → compute_stop_distances (b ∷ bs) point config ≡ ok d
      → (base : F) × (d ≡ (base ⊗ config.sl_atr_mult, base ⊗ config.tp_atr_mult))
        × (a ≼ base)
        × ((last_of b bs).close ⊗ config.min_stop_distance_fraction_of_price ≼ base)
  unfolding compute_stop_distances
  compute_stop_distances_lem b bs point a config h ea e =
      let floor_price = (last_of b bs).close ⊗ config.min_stop_distance_fraction_of_price in
      let fallback = config.min_stop_distance_points ⊗ point in
      (
        stop_base a (last_of b bs).close point config,
        ground (arith, ea, e),
        ground (
          arith,
          le-max_left ord a floor_price,
          le-max_left ord fallback floor_price,
          not_lt-le ord nought a,
          ord.le_trans a nought fallback,
          ord.le_trans a fallback (max fallback floor_price),
        ),
        ground (arith, le-max_right ord a floor_price, le-max_right ord fallback floor_price),
      )
