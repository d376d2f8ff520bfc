-- ===== src/Tests/Signals.antt =====
-- features/ and strategy/ at concrete bars.
use mt5_mcp_trading_framewor.Common.{◌≡◌, refl, map, some, List, [], ◌∷◌, arith}
use mt5_mcp_trading_framewor.Common.Int.{pos}
use mt5_mcp_trading_framewor.Common.Outcome.{ok}
use mt5_mcp_trading_framewor.Float.{◌≼◌, nought, ◌⊗◌}
use mt5_mcp_trading_framewor.Float.Fixed.{Fixed, fixed_float, Fixed-IsOrdered, Fixed-IsArith}
use mt5_mcp_trading_framewor.Domain.{MarketBar, GridLevels, GuardState, no_action, flatten}
use mt5_mcp_trading_framewor.Features.{atr, ema}
use mt5_mcp_trading_framewor.Features.Laws.{atr_nonneg}
use mt5_mcp_trading_framewor.Strategy.Grid.{compute_grid_levels}
use mt5_mcp_trading_framewor.Strategy.Grid.Laws.{compute_grid_levels_lem}
use mt5_mcp_trading_framewor.Strategy.Runner.{compute_stop_distances}
use mt5_mcp_trading_framewor.Strategy.Runner.Laws.{compute_stop_distances_lem}
use mt5_mcp_trading_framewor.Strategy.Guard.{GuardConfig, evaluate_at}
use mt5_mcp_trading_framewor.Strategy.Guard.Laws.{
  Explains, evaluate_at_explained, quiet_actions, deadline_counts_bars,
}
use mt5_mcp_trading_framewor.Tests.Samples.{
  bar_at, some_bars, twelve_bars, grid_config, runner_config,
}

atr_nonneg_example : (r : Fixed) × (atr some_bars 1 ≡ ok r) × (nought ≼ r)
atr_nonneg_example = atr_nonneg Fixed-IsOrdered Fixed-IsArith some_bars 1 (omega arith)

abbrev levels : GridLevels Fixed
levels = record {
  symbol = "BTCUSD";
  timestamp = 3;
  center = pos 103_000;
  atr = pos 3000;
  step_price = pos 2000;
  tp_price = pos 2000;
  sl_price = pos 6000;
  buy_price = pos 101_000;
  sell_price = pos 105_000;
}

compute_grid_levels_lem_example :
    let lowest = grid_config.min_step_points ⊗ pos 100 in
    (lowest ≼ levels.step_price)
    × (lowest ≼ levels.tp_price)
    × (lowest ≼ levels.sl_price)
    × (levels.buy_price ≼ levels.center)
    × (levels.center ≼ levels.sell_price)
unfolding fixed_float compute_grid_levels atr
compute_grid_levels_lem_example =
    compute_grid_levels_lem Fixed-IsOrdered Fixed-IsArith some_bars (pos 100) grid_config
      {levels = levels} refl refl

abbrev some_closes : List Fixed
some_closes = map (λ (x : MarketBar Fixed). x.close) twelve_bars

abbrev distances : Fixed × Fixed
distances = (pos 4500, pos 9000)

compute_stop_distances_lem_example :
    (base : Fixed) × (distances
      ≡ (base ⊗ runner_config.sl_atr_mult, base ⊗ runner_config.tp_atr_mult))
    × (pos 3000 ≼ base)
    × (pos 103_000 ⊗ runner_config.min_stop_distance_fraction_of_price ≼ base)
unfolding fixed_float compute_stop_distances atr
compute_stop_distances_lem_example =
    compute_stop_distances_lem Fixed-IsOrdered (bar_at 1 100_000)
      (bar_at 2 101_000 ∷ bar_at 3 103_000 ∷ []) (pos 100) (pos 3000) runner_config {d = distances}
      refl refl refl

abbrev guard_config : GuardConfig Fixed
guard_config = record {
  ema_long = 2;
  partial_ratio_long = pos 500;
  partial_ratio_short = pos 250;
  deadline_bars = 3;
}

abbrev waiting : GuardState
waiting = record { deadline_bars_remaining = 1; last_evaluated_bar_time = some 10 }

abbrev evaluated : GuardState
evaluated = record { deadline_bars_remaining = 0; last_evaluated_bar_time = some 11 }

evaluate_at_explained_example :
    (v : Fixed) × (ema some_closes 2 ≡ ok v)
    × (evaluated.last_evaluated_bar_time ≡ some 11)
    × Explains [] 72101 guard_config (bar_at 11 111_000) v 1 0 flatten
unfolding fixed_float evaluate_at ema
evaluate_at_explained_example =
    evaluate_at_explained (bar_at 11 111_000) some_closes [] 72101 waiting evaluated guard_config
      flatten refl refl

deadline_counts_bars_example :
    quiet_actions guard_config 3 (1 ∷ 2 ∷ 3 ∷ 4 ∷ [])
    ≡ no_action ∷ no_action ∷ flatten ∷ no_action ∷ []
deadline_counts_bars_example = deadline_counts_bars guard_config (1 ∷ 2 ∷ []) 3 (4 ∷ [])
