-- ===== src/Strategy/Guard.antt =====
-- strategy/guard.py: the EMA exit guard, which closes part of an adverse position and flattens after a
-- deadline counted in closed bars.
pub mod Laws
use mt5_mcp_trading_framewor.Common.{
  ℕ, ◌+◌, ◌-◌, Bool, true, false, ◌&&◌, Option, none, some, List, [], ◌∷◌, map, if◌then◌else◌, ltb,
  ◌==◌, length, take, get_elem?, any,
}
use mt5_mcp_trading_framewor.Common.Outcome.{Outcome, ok, raised, value_error, index_error, ◌>>=◌}
use mt5_mcp_trading_framewor.Float.{Float, ◌⊏◌}
use mt5_mcp_trading_framewor.Features.{ema}
use mt5_mcp_trading_framewor.Domain.{
  Time, MarketBar, PositionState, GuardState, GuardAction, no_action, partial_close, flatten, Side,
  side_eq, buy, sell,
}

pub record GuardConfig (F : Type 0) : Type 0 where
  pub ema_long : ℕ
  pub partial_ratio_long : F
  pub partial_ratio_short : F
  pub deadline_bars : ℕ

module _ {F : Type 0} where
  -- `any(p.magic == magic and p.side == side for p in positions)`
  abbrev pub has_side : List (PositionState F) → ℕ → Side → Bool
  has_side positions magic side = any (λ p. (p.magic == magic) && side_eq p.side side) positions

  -- what the two triggers do to the deadline, and the action
  unfoldable pub guard_decision : Bool → Bool → ℕ → GuardConfig F → ℕ × GuardAction F
  guard_decision long_trigger short_trigger deadline config =
      if long_trigger
      then (config.deadline_bars, partial_close config.partial_ratio_long)
      else if short_trigger
      then (config.deadline_bars, partial_close config.partial_ratio_short)
      else if ltb 0 deadline
      then (deadline - 1, (if (deadline - 1) == 0 then flatten else no_action))
      else (deadline, no_action)

  abbrev stamped : Time → ℕ × GuardAction F → GuardState × GuardAction F
  stamped time (deadline, action) =
      (record { deadline_bars_remaining = deadline; last_evaluated_bar_time = some time }, action)

-- `state.last_evaluated_bar_time == last_closed.time`
abbrev pub seen : Option Time → Time → Bool
seen none time = false
seen (some t) time = t == time

module _ {F : Type 0} ⦃f : Float F⦄ where
  abbrev pub long_trigger : List (PositionState F) → ℕ → MarketBar F → F → Bool
  long_trigger positions magic last_closed ema_value =
      has_side positions magic buy && (last_closed.high ⊏ ema_value)

  abbrev pub short_trigger : List (PositionState F) → ℕ → MarketBar F → F → Bool
  short_trigger positions magic last_closed ema_value =
      has_side positions magic sell && (ema_value ⊏ last_closed.low)

  -- the body after the check of the number of bars, at `bars[-2]`
  unfoldable pub evaluate_at :
      Option (MarketBar F)
      → List F
      → List (PositionState F)
      → ℕ
      → GuardState
      → GuardConfig F
      → Outcome (GuardState × GuardAction F)
  unfolding guard_decision
  evaluate_at none closes positions magic state config = raised index_error
  evaluate_at (some last_closed) closes positions magic state config =
      if seen state.last_evaluated_bar_time last_closed.time then ok (state, no_action) else do
        ema_value ← ema closes config.ema_long
        ok (
            stamped last_closed.time (
              guard_decision (long_trigger positions magic last_closed ema_value)
                (short_trigger positions magic last_closed ema_value) state.deadline_bars_remaining
                config))

  unfoldable pub evaluate_guard :
      List (MarketBar F)
      → List (PositionState F)
      → ℕ
      → GuardState
      → GuardConfig F
      → Outcome (GuardState × GuardAction F)
  unfolding evaluate_at
  evaluate_guard bars positions magic state config =
      if ltb (length bars) (config.ema_long + 5)
      then raised value_error
      else evaluate_at (get_elem? bars (length bars - 2))
          (map (λ b. b.close) (take (length bars - 1) bars)) positions magic state config
