-- ===== src/Features/Defs.antt =====
-- The indicators, function by function.
use Prim.Native.Nat.{max as nat_max}
use mt5_mcp_trading_framewor.Common.{
  ℕ, ◌+◌, List, [], ◌∷◌, map, ltb, ◌==◌, if◌then◌else◌, length, last_slice, last_of,
}
use mt5_mcp_trading_framewor.Common.Outcome.{Outcome, ok, raised, value_error, index_error, ◌>>=◌}
use mt5_mcp_trading_framewor.Float.{Float, ◌⊕◌, ◌⊖◌, ◌⊗◌, ◌⊘◌, ◌⊑◌, nought, max}
use mt5_mcp_trading_framewor.Domain.{MarketBar}

module _ {F : Type 0} ⦃f : Float F⦄ where
  -- the loop of `ema`
  unfoldable pub ema_loop : F → F → List F → F
  ema_loop alpha result [] = result
  ema_loop alpha result (v ∷ vs) = ema_loop alpha (v ⊗ alpha ⊕ result ⊗ (f.of_nat 1 ⊖ alpha)) vs

  abbrev ema_values : List F → ℕ → F
  ema_values [] period = nought
  ema_values (v ∷ vs) period = ema_loop (f.of_nat 2 ⊘ (f.of_nat period ⊕ f.of_nat 1)) v vs

  unfoldable pub ema : List F → ℕ → Outcome F
  unfolding ema_loop
  ema values period = if period == 0 then raised value_error else ok (ema_values values period)

  unfoldable pub true_range : F → MarketBar F → F
  unfolding max
  true_range prev_close bar =
      max (max (bar.high ⊖ bar.low) (f.abs (bar.high ⊖ prev_close))) (f.abs (bar.low ⊖ prev_close))

  -- the true ranges of the bars that follow a bar with this close
  unfoldable pub true_ranges_from : F → List (MarketBar F) → List F
  unfolding true_range
  true_ranges_from prev_close [] = []
  true_ranges_from prev_close (bar ∷ bars) =
      true_range prev_close bar ∷ true_ranges_from bar.close bars

  -- the first bar is its own predecessor
  unfoldable pub true_ranges : List (MarketBar F) → List F
  unfolding true_ranges_from
  true_ranges [] = []
  true_ranges (bar ∷ bars) = true_ranges_from bar.close (bar ∷ bars)

  unfoldable pub atr : List (MarketBar F) → ℕ → Outcome F
  unfolding true_ranges
  atr bars period =
      if period == 0
      then raised value_error
      else if ltb (length bars) (period + 1)
      then ok nought
      else ok (f.sum (last_slice period (true_ranges bars)) ⊘ f.of_nat period)

  -- `abs(closes[i] - closes[i - 1])` for the closes after the first
  unfoldable pub steps_from : F → List F → List F
  steps_from c [] = []
  steps_from c (d ∷ ds) = f.abs (d ⊖ c) ∷ steps_from d ds

  unfoldable pub efficiency_of : List F → Outcome F
  unfolding steps_from
  efficiency_of [] = raised index_error
  efficiency_of (c ∷ cs) =
      let net_change = f.abs (last_of c cs ⊖ c) in
      let path_length = f.sum (steps_from c cs) in
      ok (if path_length ⊑ nought then nought else net_change ⊘ path_length)

  unfoldable pub efficiency_ratio : List (MarketBar F) → ℕ → Outcome F
  unfolding efficiency_of
  efficiency_ratio bars period =
      if period == 0
      then raised value_error
      else if ltb (length bars) (period + 1)
      then ok nought
      else efficiency_of (map (λ b. b.close) (last_slice (period + 1) bars))

  unfoldable pub macd : List F → ℕ → ℕ → Outcome F
  unfolding ema
  macd closes fast slow = if ltb (length closes) (nat_max fast slow) then ok nought else do
    let window = last_slice slow closes
    a ← ema window (if ltb fast slow then fast else slow)
    b ← ema window slow
    ok (a ⊖ b)
