-- ===== src/Pipeline/LoopControl.antt =====
-- pipeline/loop_control.py: when the bounded loop stops.
use mt5_mcp_trading_framewor.Common.{
  ℕ, Bool, false, not, Option, none, some, List, if◌then◌else◌, leb, ◌≡◌, ◌↔◌, arith,
}
use mt5_mcp_trading_framewor.Float.{Float, ◌⊑◌}
use mt5_mcp_trading_framewor.Domain.{Reason, RiskDecision}

pub record LoopLimits (F : Type 0) : Type 0 where
  pub max_cycles : ℕ
  pub max_runtime_seconds : F
  pub cycle_interval_seconds : F
  pub poll_interval_seconds : F

-- the messages of `should_stop`
pub data StopReason (F : Type 0) : Type 0 where
  stop_file_present : StopReason F
  daily_loss_breached : List (Reason F) → StopReason F
  max_cycles_reached : ℕ → StopReason F
  max_runtime_reached : F → StopReason F

module _ {F : Type 0} ⦃f : Float F⦄ where
  -- the two administrative limits
  abbrev pub limit_reached : ℕ → F → LoopLimits F → Option (StopReason F)
  limit_reached cycle_num elapsed_seconds limits =
      if leb limits.max_cycles cycle_num
      then some (max_cycles_reached limits.max_cycles)
      else if limits.max_runtime_seconds ⊑ elapsed_seconds
      then some (max_runtime_reached limits.max_runtime_seconds)
      else none

  abbrev pub stop_after_loss :
      Option (RiskDecision F) → Option (StopReason F) → Option (StopReason F)
  stop_after_loss none otherwise = otherwise
  stop_after_loss (some d) otherwise =
      if not d.approved then some (daily_loss_breached d.reasons) else otherwise

  unfoldable pub should_stop :
      ℕ → F → Bool → LoopLimits F → Option (RiskDecision F) → Option (StopReason F)
  should_stop cycle_num elapsed_seconds stop_file_exists limits daily_loss_decision =
      if stop_file_exists
      then some stop_file_present
      else stop_after_loss daily_loss_decision (limit_reached cycle_num elapsed_seconds limits)

  abbrev pub is_breach : Option (RiskDecision F) → Bool
  is_breach none = false
  is_breach (some d) = not d.approved

  -- The loop goes on exactly if there is no stop file, no breach of the loss limit, fewer cycles than
  -- the limit and less time than the limit.
  pub should_stop-none_iff :
      (n : ℕ) (elapsed : F) (stop_file_exists : Bool) (limits : LoopLimits F)
      (decision : Option (RiskDecision F))
      → (should_stop n elapsed stop_file_exists limits decision ≡ none) ↔ (
          (stop_file_exists ≡ false)
          × (is_breach decision ≡ false)
          × (leb limits.max_cycles n ≡ false)
          × ((limits.max_runtime_seconds ⊑ elapsed) ≡ false))
  unfolding should_stop
  should_stop-none_iff n elapsed stop limits none = (ground arith, ground arith)
  should_stop-none_iff n elapsed stop limits (some d) = (ground arith, ground arith)

  -- A breach of the loss limit is the reason of a stop in which no stop file is present, whatever the
  -- cycles and the time.
  pub should_stop_on_breach :
      (n : ℕ) (elapsed : F) (limits : LoopLimits F) (d : RiskDecision F)
      → d.approved ≡ false
      → should_stop n elapsed false limits (some d) ≡ some (daily_loss_breached d.reasons)
  unfolding should_stop
  should_stop_on_breach n elapsed limits d h = ground arith
