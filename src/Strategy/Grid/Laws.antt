-- ===== src/Strategy/Grid/Laws.antt =====
-- Proofs about strategy/grid.py: the geometry of the levels.
use mt5_mcp_trading_framewor.Common.{◌≡◌, List, [], ◌∷◌, map, arith, inl, inr, Bool-cases, last_of}
use mt5_mcp_trading_framewor.Common.Outcome.{ok, >>=-eq-ok}
use mt5_mcp_trading_framewor.Float.{
  Float, IsOrdered, IsArith, ◌⊗◌, ◌⊑◌, ◌≼◌, nought, le-max_left, le-add, sub-le,
}
use mt5_mcp_trading_framewor.Features.{atr}
use mt5_mcp_trading_framewor.Domain.{MarketBar, GridLevels}
use mt5_mcp_trading_framewor.Strategy.Grid.{
  GridStrategyConfig, Offsets, offsets, scaled_offsets, center_of, compute_grid_levels,
}

module _ {F : Type 0} ⦃f : Float F⦄ (ord : IsOrdered F) where
  -- each distance is at least the smallest one allowed
  abbrev pub IsFloored : F → Offsets F → Type 0
  IsFloored lowest o = (lowest ≼ o.step_price) × (lowest ≼ o.tp_price) × (lowest ≼ o.sl_price)

  offsets-IsFloored :
      (a : F) (closes : List F) (last_close point : F) (config : GridStrategyConfig F)
      {o : Offsets F}
      → offsets a closes last_close point config ≡ ok o
      → IsFloored (config.min_step_points ⊗ point) o
  unfolding offsets
  offsets-IsFloored a closes last_close point config e = elim (Bool-cases (a ⊑ nought)) [
    | inl flat ↦ ground (arith, ord.le_refl (config.min_step_points ⊗ point))
    | inr live ↦
        let (c, _, e') =
          >>=-eq-ok (center_of config.center_mode closes last_close config.center_ema_period)
            (λ c. ok (scaled_offsets c a point config)) (rw live at e) in
        ground (
          arith,
          e',
          le-max_left ord (config.min_step_points ⊗ point) (a ⊗ config.step_mult),
          le-max_left ord (config.min_step_points ⊗ point) (a ⊗ config.step_mult ⊗ f.ratio 12 10),
          le-max_left ord (config.min_step_points ⊗ point) (a ⊗ config.sl_atr_mult),
        )
  ]

module _ {F : Type 0} ⦃f : Float F⦄ (ord : IsOrdered F) (ar : IsArith F) where
  -- When the levels are computed and the least distance is not negative, the step and both stop distances are at least the configured
  -- number of points, and the buy level is not above the center nor the sell level below it.
  pub compute_grid_levels_lem :
      (bars : List (MarketBar F)) (point : F) (config : GridStrategyConfig F)
      {levels : GridLevels F}
      → nought ≼ config.min_step_points ⊗ point
      → compute_grid_levels bars point config ≡ ok levels
      → let lowest = config.min_step_points ⊗ point in
        (lowest ≼ levels.step_price)
        × (lowest ≼ levels.tp_price)
        × (lowest ≼ levels.sl_price)
        × (levels.buy_price ≼ levels.center)
        × (levels.center ≼ levels.sell_price)
  unfolding compute_grid_levels
  compute_grid_levels_lem [] point config h e = cc
  compute_grid_levels_lem (b ∷ bs) point config h e =
      let closes = map (λ (x : MarketBar F). x.close) (b ∷ bs) in
      let last = last_of b bs in
      let (a, _, e₁) = >>=-eq-ok (atr (b ∷ bs) config.atr_period) _ e in
      let (o, e₂, e₃) = >>=-eq-ok (offsets a closes last.close point config) _ e₁ in
      let (st, tp, sl) = offsets-IsFloored ord a closes last.close point config e₂ in
      let up = ord.le_trans nought (config.min_step_points ⊗ point) o.step_price h st in
      ground (
        arith,
        e₃,
        st,
        tp,
        sl,
        sub-le ord ar o.center o.step_price up,
        le-add ord ar o.center o.step_price up,
      )
