-- ===== src/Strategy/Grid.antt =====
-- strategy/grid.py and trade_intent/grid.py.
pub mod Laws
use mt5_mcp_trading_framewor.Common.{
  ℕ, Bool, true, false, Option, none, some, List, [], ◌∷◌, map, String, if◌then◌else◌, last_of,
}
use mt5_mcp_trading_framewor.Common.Outcome.{Outcome, ok, raised, value_error, ◌>>=◌}
use mt5_mcp_trading_framewor.Float.{Float, ◌⊕◌, ◌⊖◌, ◌⊗◌, ◌⊑◌, nought, max}
use mt5_mcp_trading_framewor.Features.{atr, ema}
use mt5_mcp_trading_framewor.Domain.{
  Side, MarketBar, GridLevels, TradeIntent, buy, sell, limit_order,
}

pub data CenterMode : Type 0 where
  ema_center last_center : CenterMode

pub record GridStrategyConfig (F : Type 0) : Type 0 where
  pub atr_period : ℕ
  pub center_ema_period : ℕ
  pub center_mode : CenterMode
  pub step_mult : F
  pub min_step_points : F
  pub sl_atr_mult : F
  pub max_entry_efficiency_ratio : Option F
  pub efficiency_ratio_period : ℕ

-- the part of the levels that the branches of `compute_grid_levels` set
pub record Offsets (F : Type 0) : Type 0 where
  pub center : F
  pub atr : F
  pub step_price : F
  pub tp_price : F
  pub sl_price : F

module _ {F : Type 0} ⦃f : Float F⦄ where
  unfoldable pub fallback_offsets : F → F → F → Offsets F
  fallback_offsets last_close point floor_points = record {
    center = last_close;
    atr = nought;
    step_price = floor_points ⊗ point;
    tp_price = floor_points ⊗ point;
    sl_price = floor_points ⊗ point;
  }

  abbrev pub center_of : CenterMode → List F → F → ℕ → Outcome F
  center_of ema_center closes last_close period = ema closes period
  center_of last_center closes last_close period = ok last_close

  unfoldable pub scaled_offsets : F → F → F → GridStrategyConfig F → Offsets F
  scaled_offsets center atr_value point config =
      let lowest = config.min_step_points ⊗ point in
      record {
        center = center;
        atr = atr_value;
        step_price = max lowest (atr_value ⊗ config.step_mult);
        tp_price = max lowest (atr_value ⊗ config.step_mult ⊗ f.ratio 12 10);
        sl_price = max lowest (atr_value ⊗ config.sl_atr_mult);
      }

  unfoldable pub offsets : F → List F → F → F → GridStrategyConfig F → Outcome (Offsets F)
  unfolding fallback_offsets scaled_offsets
  offsets atr_value closes last_close point config =
      if atr_value ⊑ nought
      then ok (fallback_offsets last_close point config.min_step_points)
      else do
        center ← center_of config.center_mode closes last_close config.center_ema_period
        ok (scaled_offsets center atr_value point config)

  abbrev levels_of : MarketBar F → Offsets F → GridLevels F
  levels_of last o = record {
    symbol = last.symbol;
    timestamp = last.time;
    center = o.center;
    atr = o.atr;
    step_price = o.step_price;
    tp_price = o.tp_price;
    sl_price = o.sl_price;
    buy_price = o.center ⊖ o.step_price;
    sell_price = o.center ⊕ o.step_price;
  }

  unfoldable pub compute_grid_levels :
      List (MarketBar F) → F → GridStrategyConfig F → Outcome (GridLevels F)
  unfolding offsets
  compute_grid_levels [] point config = raised value_error
  compute_grid_levels (b ∷ bs) point config = do
    let last = last_of b bs
    atr_value ← atr (b ∷ bs) config.atr_period
    o ← offsets atr_value (map (λ x. x.close) (b ∷ bs)) last.close point config
    ok (levels_of last o)

-- trade_intent/grid.py: always one intent of each side
abbrev limit_intent : {F : Type 0} → GridLevels F → String → Side → F → TradeIntent F
limit_intent levels strategy_name side price = record {
  symbol = levels.symbol;
  side = side;
  strategy_name = strategy_name;
  desired_order_type = limit_order;
  timestamp = levels.timestamp;
  reference_price = some price;
  signal_ref = none;
}

unfoldable pub grid_levels_to_trade_intents :
    {F : Type 0} → GridLevels F → String → TradeIntent F × TradeIntent F
grid_levels_to_trade_intents levels strategy_name = (
  limit_intent levels strategy_name buy levels.buy_price,
  limit_intent levels strategy_name sell levels.sell_price,
)
