-- ===== src/Risk/Defs.antt =====
-- risk/combine.py, portfolio_guards.py and symbol_guards.py.
use mt5_mcp_trading_framewor.Common.{
  ℕ, Bool, true, false, ◌&&◌, Option, none, some, List, [], ◌∷◌, ◌++◌, if◌then◌else◌, leb, length,
}
use mt5_mcp_trading_framewor.Common.Outcome.{Outcome, ok, raised, value_error}
use mt5_mcp_trading_framewor.Float.{Float, ◌⊕◌, ◌⊖◌, ◌⊗◌, ◌⊏◌, ◌⊑◌}
use mt5_mcp_trading_framewor.Domain.{
  Side, side_eq, OrderState, PositionState, RiskDecision, Reason, exposure, exceeds_max_open_lots,
  exceeds_budget_max_lots, within_caps, existing_order, no_existing_order, positions_at_limit,
  positions_below_limit, max_open_lots_guard, budget_max_lots_guard, duplicate_order,
  position_limit,
}

pub record ExposureCaps (F : Type 0) : Type 0 where
  pub max_open_lots : Option F
  pub budget_max_lots : Option F

module _ {F : Type 0} where
  -- `all_reasons` after the first loop
  unfoldable pub all_reasons : List (RiskDecision F) → List (Reason F)
  all_reasons [] = []
  all_reasons (d ∷ ds) = d.reasons ++ all_reasons ds

  -- the second loop: the first decision that is not an approval wins
  unfoldable pub first_rejection : List (Reason F) → List (RiskDecision F) → RiskDecision F
  first_rejection reasons [] = record { approved = true; reasons = reasons; blocking_guard = none }
  first_rejection reasons (d ∷ ds) =
      if d.approved
      then first_rejection reasons ds
      else record { approved = false; reasons = reasons; blocking_guard = d.blocking_guard }

  unfoldable pub combine : List (RiskDecision F) → Outcome (RiskDecision F)
  unfolding all_reasons first_rejection
  combine [] = raised value_error
  combine (d ∷ ds) = ok (first_rejection (all_reasons (d ∷ ds)) (d ∷ ds))

module _ {F : Type 0} ⦃f : Float F⦄ where
  -- `cap is not None and projected > cap`
  abbrev pub exceeds : F → Option F → Bool
  exceeds projected none = false
  exceeds projected (some cap) = cap ⊏ projected

  abbrev cap_or : F → Option F → F
  cap_or projected none = projected
  cap_or projected (some cap) = cap

  unfoldable pub check_exposure_cap :
      (open_lots pending_lots proposed_volume : F) → ExposureCaps F → RiskDecision F
  check_exposure_cap open_lots pending_lots proposed_volume caps =
      let projected = open_lots ⊕ pending_lots ⊕ proposed_volume in
      let first = exposure open_lots pending_lots proposed_volume projected in
      if exceeds projected caps.max_open_lots
      then record {
        approved = false;
        reasons =
            first ∷ exceeds_max_open_lots projected (cap_or projected caps.max_open_lots) ∷ [];
        blocking_guard = some max_open_lots_guard;
      }
      else if exceeds projected caps.budget_max_lots
      then record {
        approved = false;
        reasons =
            first ∷ exceeds_budget_max_lots projected (cap_or projected caps.budget_max_lots) ∷ [];
        blocking_guard = some budget_max_lots_guard;
      }
      else record { approved = true; reasons = first ∷ within_caps ∷ []; blocking_guard = none }

  -- `order.side == side and abs(order.price - price) <= tolerance`
  abbrev pub is_near : Side → F → F → OrderState F → Bool
  is_near side price tolerance o = side_eq o.side side && (f.abs (o.price ⊖ price) ⊑ tolerance)

  unfoldable pub duplicate_scan :
      List (OrderState F) → Side → (price tolerance tol_ticks : F) → RiskDecision F
  duplicate_scan [] side price tolerance tol_ticks = record {
    approved = true;
    reasons = no_existing_order side tolerance price ∷ [];
    blocking_guard = none;
  }
  duplicate_scan (o ∷ os) side price tolerance tol_ticks =
      if is_near side price tolerance o
      then record {
        approved = false;
        reasons = existing_order o.ticket o.price tolerance side price tol_ticks ∷ [];
        blocking_guard = some duplicate_order;
      }
      else duplicate_scan os side price tolerance tol_ticks

  -- the default of `tol_ticks`
  abbrev pub default_tol_ticks : F
  default_tol_ticks = f.of_nat 5

  unfoldable pub check_duplicate_order :
      List (OrderState F) → Side → (price point tol_ticks : F) → RiskDecision F
  unfolding duplicate_scan
  check_duplicate_order orders side price point tol_ticks =
      duplicate_scan orders side price (tol_ticks ⊗ point) tol_ticks

module _ {F : Type 0} where
  unfoldable pub check_position_limit : List (PositionState F) → ℕ → RiskDecision F
  check_position_limit positions max_concurrent =
      if leb max_concurrent (length positions)
      then record {
        approved = false;
        reasons = positions_at_limit (length positions) max_concurrent ∷ [];
        blocking_guard = some position_limit;
      }
      else record {
        approved = true;
        reasons = positions_below_limit (length positions) max_concurrent ∷ [];
        blocking_guard = none;
      }
