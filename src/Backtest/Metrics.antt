-- ===== src/Backtest/Metrics.antt =====
-- backtest/metrics.py: figures over the closed trades of a replay, in the order of their closing.
pub mod Laws
use mt5_mcp_trading_framewor.Common.{
  ℕ, suc, Bool, true, false, List, [], ◌∷◌, length, leb, if◌then◌else◌, map, keep, ◌&&◌,
}
use mt5_mcp_trading_framewor.Common.Outcome.{Outcome, ok, raised, value_error}
use mt5_mcp_trading_framewor.Float.{Float, ◌⊕◌, ◌⊖◌, ◌⊘◌, ◌⊏◌, ◌⊑◌, max, nought}
use mt5_mcp_trading_framewor.Backtest.Ledger.{ClosedTrade}

-- `profit_factor` returns `inf` for winners without losers
pub data ProfitFactor (F : Type 0) : Type 0 where
  finite_factor : F → ProfitFactor F
  infinite_factor : ProfitFactor F

module _ {F : Type 0} where
  abbrev pub multiples : List (ClosedTrade F) → List F
  multiples trades = map (λ t. t.r_multiple) trades

  unfoldable pub has_minimum_sample : List (ClosedTrade F) → ℕ → Bool
  has_minimum_sample trades minimum = leb minimum (length trades)

-- an empty list of trades has no figures
abbrev pub unless_empty : {A B : Type 0} → List A → B → Outcome B
unless_empty [] figure = raised value_error
unless_empty (t ∷ ts) figure = ok figure

module _ {F : Type 0} ⦃f : Float F⦄ where
  unfoldable pub expectancy_r : List (ClosedTrade F) → Outcome F
  expectancy_r trades = unless_empty trades (f.sum (multiples trades) ⊘ f.of_nat (length trades))

  -- the loop, over the R multiples that are left
  unfoldable pub drawdown_loop : (cumulative peak max_dd : F) → List F → F
  drawdown_loop cumulative peak max_dd [] = max_dd
  drawdown_loop cumulative peak max_dd (r ∷ rs) =
      let cumulative' = cumulative ⊕ r in
      let peak' = max peak cumulative' in
      drawdown_loop cumulative' peak' (max max_dd (peak' ⊖ cumulative')) rs

  unfoldable pub max_drawdown_r : List (ClosedTrade F) → Outcome F
  unfolding drawdown_loop
  max_drawdown_r trades =
      unless_empty trades (drawdown_loop nought nought nought (multiples trades))

  unfoldable pub win_rate : List (ClosedTrade F) → Outcome F
  win_rate trades =
      unless_empty trades
        (f.of_nat (length (keep (λ t. nought ⊏ t.r_multiple) trades)) ⊘ f.of_nat (length trades))

  abbrev factor_of : F → F → ProfitFactor F
  factor_of gross_profit gross_loss =
      if (gross_loss ⊑ nought) && (nought ⊑ gross_loss)
      then (if nought ⊏ gross_profit then infinite_factor else finite_factor nought)
      else finite_factor (gross_profit ⊘ gross_loss)

  unfoldable pub profit_factor : List (ClosedTrade F) → Outcome (ProfitFactor F)
  profit_factor trades = unless_empty trades (
      factor_of (f.sum (keep (λ r. nought ⊏ r) (multiples trades)))
        (f.sum (map f.neg (keep (λ r. r ⊏ nought) (multiples trades)))))
