-- ===== src/Pipeline/GridSide/Laws.antt =====
-- Proofs about pipeline/grid_cycle.py: what a side of the grid may submit.
use mt5_mcp_trading_framewor.Common.{
  ◌≡◌, refl, Option, none, some, arith, Bool-cases, Option-cases, inl, inr, not, if◌then◌else◌, sym,
  ap, ◌∙◌, subst, subst₂,
}
use mt5_mcp_trading_framewor.Common.Outcome.{ok, >>=-eq-ok, ◌>>=◌}
use mt5_mcp_trading_framewor.Float.{Float, IsOrdered, IsArith, ◌≼◌, nought}
use mt5_mcp_trading_framewor.Domain.{Side, TradeIntent, OrderPlan, limit_order, RiskDecision}
use mt5_mcp_trading_framewor.Risk.{check_exposure_cap, check_duplicate_order, default_tol_ticks}
use mt5_mcp_trading_framewor.Risk.Laws.{IsApproved, combine_iff}
use mt5_mcp_trading_framewor.Sizing.{to_sized_intent}
use mt5_mcp_trading_framewor.Planning.{build_order_plan, clamp_volume, limit_side}
use mt5_mcp_trading_framewor.Planning.Laws.{IsClear, IsOnTick, IsPriced, build_order_plan_lem}
use mt5_mcp_trading_framewor.Pipeline.Stops.{stops, IsBracketed, stops_rounded-IsBracketed}
use mt5_mcp_trading_framewor.Pipeline.GridSide.{
  GridInputs, sized_for, grid_guards, grid_options, with_stops, finish_plan, plan_if_approved,
  side_plan,
}

module _ {F : Type 0} ⦃f : Float F⦄ where
  abbrev pub bracket : GridInputs F → Side → F → F × F
  bracket i side price = stops side price i.levels.sl_price i.levels.tp_price i.symbol_info.digits

  with_stops-eq-some :
      (i : GridInputs F) (side : Side) (q : OrderPlan F) (price : Option F) {plan : OrderPlan F}
      → with_stops i side q price ≡ ok (some plan)
      → (p : F) × (price ≡ some p)
        × (plan ≡ record q { sl = (bracket i side p).0; tp = (bracket i side p).1 })
  with_stops-eq-some i side q none e = cc
  with_stops-eq-some i side q (some p) e = (p, refl, cc)

  finish_plan-eq-some :
      (i : GridInputs F) (side : Side) (m : Option (OrderPlan F)) {plan : OrderPlan F}
      → finish_plan i side m ≡ ok (some plan)
      → (q : OrderPlan F) × (p : F) × (m ≡ some q)
        × (q.price ≡ some p)
        × (plan ≡ record q { sl = (bracket i side p).0; tp = (bracket i side p).1 })
  finish_plan-eq-some i side none e = cc
  finish_plan-eq-some i side (some q) e =
      let (p, ep, er) = with_stops-eq-some i side q q.price e in (q, p, refl, ep, er)

  -- an approved plan comes from `build_order_plan`, with the stops around its own price
  plan_if_approved-eq-some :
      (i : GridInputs F) (intent : TradeIntent F) (combined : RiskDecision F) {plan : OrderPlan F}
      → plan_if_approved i intent combined ≡ ok (some plan)
      → (q : OrderPlan F) × (p : F) × (build_order_plan
            (sized_for i intent)
            combined
            i.symbol_info
            i.tick
            (grid_options i intent.side)
          ≡ ok (some q))
        × (q.price ≡ some p)
        × (plan ≡ record q { sl = (bracket i intent.side p).0; tp = (bracket i intent.side p).1 })
  plan_if_approved-eq-some i intent combined {plan} e = elim (Bool-cases combined.approved) [
    | inr refused ↦ ground arith
    | inl granted ↦
        let built =
          build_order_plan (sized_for i intent) combined i.symbol_info i.tick
            (grid_options i intent.side) in
        let (m, eb, ef) = >>=-eq-ok built (finish_plan i intent.side) {result = some plan} (
          sym (ap (λ b. if not b then ok none else (built >>= finish_plan i intent.side)) granted)
          ∙ e) in
        let (q, p, em, ep, er) = finish_plan-eq-some i intent.side m ef in (q, p, cc, ep, er)
  ]

  -- the guards that a submission has passed, and the price and volume that it has
  abbrev pub IsVetted : GridInputs F → TradeIntent F → OrderPlan F → F → F → Type 0
  IsVetted i intent plan reference price =
      (intent.reference_price ≡ some reference)
      × (plan.price ≡ some price)
      × IsApproved
          (check_exposure_cap i.open_lots i.pending_lots (sized_for i intent).volume i.caps)
      × IsApproved (
          check_duplicate_order i.pending_orders intent.side reference i.symbol_info.point
            default_tol_ticks)
      × (plan.volume ≡ clamp_volume (sized_for i intent).volume i.symbol_info)
      × (plan.side ≡ intent.side)
      × IsClear (limit_side intent.side) i.symbol_info i.tick price
      × IsOnTick i.symbol_info price

module _ {F : Type 0} ⦃f : Float F⦄ (ord : IsOrdered F) (ar : IsArith F) where
  -- Whatever a side of the grid submits for a limit intent has passed the exposure and the duplicate
  -- guard, has the clamped volume and a price clear of the market and on a multiple of the tick size,
  -- and its stop-loss and take-profit lie on their sides of that price, rounded like them to the
  -- symbol's decimals, if the two distances are not negative.
  pub side_plan_lem :
      (i : GridInputs F) (intent : TradeIntent F) {plan : OrderPlan F}
      → intent.desired_order_type ≡ limit_order
      → nought ≼ i.levels.sl_price
      → nought ≼ i.levels.tp_price
      → side_plan i intent ≡ ok (some plan)
      → (reference : F) × (price : F) × IsVetted i intent plan reference price
        × IsBracketed intent.side (f.round_to price i.symbol_info.digits) (plan.sl, plan.tp)
  unfolding side_plan to_sized_intent
  side_plan_lem i intent {plan} limit hs ht e = elim (Option-cases intent.reference_price) [
    | inl missing ↦ ground arith
    | inr (reference, er) ↦
        let (combined, ec, e₂) =
          >>=-eq-ok (grid_guards i intent (some reference)) (plan_if_approved i intent)
            {result = some plan}
            (sym (ap (λ r. grid_guards i intent r >>= plan_if_approved i intent) er) ∙ e) in
        let (q, p, eb, ep, eq) = plan_if_approved-eq-some i intent combined {plan = plan} e₂ in
        let (approved, fits) =
          build_order_plan_lem (sized_for i intent) combined i.symbol_info i.tick
            (grid_options i intent.side) {plan = q} eb in
        let (clear, on_tick) =
          subst₂ (λ t m. IsPriced t intent.side intent.reference_price i.symbol_info i.tick m) limit
            ep fits.7 in
        let (within, (single, _)) = (combine_iff _ ec).0.0 approved in
        (
          reference,
          p,
          (
            er,
            ap (λ r. r.price) eq ∙ ep,
            within,
            single,
            ap (λ r. r.volume) eq ∙ fits.6,
            ap (λ r. r.side) eq ∙ fits.2,
            clear,
            on_tick,
          ),
          subst (λ r. IsBracketed intent.side (f.round_to p i.symbol_info.digits) (r.sl, r.tp))
              (sym eq)
              (stops_rounded-IsBracketed ord ar intent.side p i.levels.sl_price i.levels.tp_price
                i.symbol_info.digits hs ht),
        )
  ]
