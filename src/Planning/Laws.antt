-- ===== src/Planning/Laws.antt =====
-- Proofs about order_planning/: prices, volumes and plans.
use mathlib.Core.Option.{some-injective}
use mt5_mcp_trading_framewor.Common.{
  ◌≡◌, true, false, Option, none, some, arith, refl, Bool-cases, inl, inr, if◌then◌else◌, subst,
}
use mt5_mcp_trading_framewor.Common.Outcome.{ok, >>=-eq-ok}
use mt5_mcp_trading_framewor.Float.{
  Float, IsOrdered, IsArith, ◌⊕◌, ◌⊖◌, ◌⊗◌, ◌⊘◌, ◌≼◌, ◌≺◌, ◌⊏◌, nought, clamp_bounds,
}
use mt5_mcp_trading_framewor.Domain.{
  Side, buy, sell, SymbolInfo, Tick, SizedIntent, RiskDecision, OrderPlan, OrderType, market_order,
  limit_order,
}
use mt5_mcp_trading_framewor.Planning.{
  LimitSide, buy_limit, sell_limit, gap, is_zero, limit_price, normalize_limit_price, clamp_volume,
  PlanOptions, build_order_plan, limit_side, price_of, plan_at,
}

module _ {F : Type 0} ⦃f : Float F⦄ where
  -- strictly beyond the gap that the broker wants between the market and a limit order
  abbrev pub IsClear : LimitSide → SymbolInfo F → Tick F → F → Type 0
  IsClear buy_limit info tick p = p ≺ tick.bid ⊖ gap info
  IsClear sell_limit info tick p = tick.ask ⊕ gap info ≺ p

  limit_price_lem :
      (price : F) (side : LimitSide) (info : SymbolInfo F) (tick : Tick F) {p : F}
      → limit_price price side info tick ≡ some p
      → IsClear side info tick p × ((x : F) × (p ≡ f.round (x ⊘ info.point) ⊗ info.point))
  limit_price_lem price buy_limit info tick e =
      elim (Bool-cases (f.round (price ⊘ info.point) ⊗ info.point ⊏ tick.bid ⊖ gap info)) [
        | inl far ↦ (ground arith, (price, ground arith))
        | inr near ↦ (ground arith, (tick.bid ⊖ gap info ⊖ f.of_nat 3 ⊗ info.point, ground arith))
      ]
  limit_price_lem price sell_limit info tick e =
      elim (Bool-cases (tick.ask ⊕ gap info ⊏ f.round (price ⊘ info.point) ⊗ info.point)) [
        | inl far ↦ (ground arith, (price, ground arith))
        | inr near ↦ (ground arith, (tick.ask ⊕ gap info ⊕ f.of_nat 3 ⊗ info.point, ground arith))
      ]

  -- A limit price that is returned lies strictly beyond the broker's distance from the market and on
  -- a multiple of the tick size, and the point is then not zero.
  pub normalize_limit_price_lem :
      (price : F) (side : LimitSide) (info : SymbolInfo F) (tick : Tick F) {p : F}
      → normalize_limit_price price side info tick ≡ ok (some p)
      → IsClear side info tick p
        × ((x : F) × (p ≡ f.round (x ⊘ info.point) ⊗ info.point))
        × (is_zero info.point ≡ false)
  unfolding normalize_limit_price
  normalize_limit_price_lem price side info tick {p} e = elim (Bool-cases (is_zero info.point)) [
    | inl zero_point ↦ absurd (ground (arith, e))
    | inr good ↦
        let (clear, on_tick) = limit_price_lem price side info tick {p = p} (cc (rw good at e)) in
        (clear, on_tick, good)
  ]

  abbrev pub IsOnTick : SymbolInfo F → F → Type 0
  IsOnTick info p = (x : F) × (p ≡ f.round (x ⊘ info.point) ⊗ info.point)

  -- What the price of a plan is: clear of the market and on a multiple of the tick size for a limit
  -- order, and for a market order the reference price or else the side of the tick that a fill would
  -- take.
  abbrev pub IsPriced : OrderType → Side → Option F → SymbolInfo F → Tick F → Option F → Type 0
  IsPriced limit_order side reference info tick none = ⊥
  IsPriced limit_order side reference info tick (some p) =
      IsClear (limit_side side) info tick p × IsOnTick info p
  IsPriced market_order side (some r) info tick price = price ≡ some r
  IsPriced market_order buy none info tick price = price ≡ some tick.ask
  IsPriced market_order sell none info tick price = price ≡ some tick.bid

  price_of-IsPriced :
      (t : OrderType) (side : Side) (reference : Option F) (info : SymbolInfo F) (tick : Tick F)
      {p : F}
      → price_of t side reference info tick ≡ ok (some p)
      → IsPriced t side reference info tick (some p)
  price_of-IsPriced limit_order side none info tick e = cc
  price_of-IsPriced limit_order side (some r) info tick e =
      let (clear, on_tick, _) = normalize_limit_price_lem r (limit_side side) info tick e in
      (clear, on_tick)
  price_of-IsPriced market_order side (some r) info tick e = cc
  price_of-IsPriced market_order buy none info tick e = cc
  price_of-IsPriced market_order sell none info tick e = cc

  -- a plan for this intent, with these options, at a price as `IsPriced` says
  abbrev pub Fits : SizedIntent F → SymbolInfo F → Tick F → PlanOptions F → OrderPlan F → Type 0
  Fits sized info tick options plan =
      (plan.symbol ≡ sized.intent.symbol)
      × (plan.order_type ≡ sized.intent.desired_order_type)
      × (plan.side ≡ sized.intent.side)
      × (plan.magic ≡ options.magic)
      × (plan.sl ≡ options.sl)
      × (plan.tp ≡ options.tp)
      × (plan.volume ≡ clamp_volume sized.volume info)
      × IsPriced sized.intent.desired_order_type sized.intent.side sized.intent.reference_price info
          tick plan.price

  plan_at-Fits :
      (sized : SizedIntent F) (info : SymbolInfo F) (tick : Tick F) (options : PlanOptions F)
      (price : Option F) {plan : OrderPlan F}
      → price_of sized.intent.desired_order_type sized.intent.side sized.intent.reference_price info
          tick
        ≡ ok price
      → plan_at sized info options price ≡ some plan
      → Fits sized info tick options plan
  plan_at-Fits sized info tick options none e₁ e₂ = cc
  plan_at-Fits sized info tick options (some p) e₁ e₂ =
      subst (Fits sized info tick options) (some-injective _ _ e₂)
        (refl, refl, refl, refl, refl, refl, refl, price_of-IsPriced _ _ _ info tick e₁)

  -- A plan is only ever built from an approved decision. It keeps the symbol, type and side of the
  -- intent and the magic and stops that it is given, its volume is the clamped one, and its price is
  -- clear of the market and on a multiple of the tick size for a limit order, and for a market order
  -- the reference price or else the side of the tick that a fill would take.
  pub build_order_plan_lem :
      (sized : SizedIntent F) (decision : RiskDecision F) (info : SymbolInfo F) (tick : Tick F)
      (options : PlanOptions F) {plan : OrderPlan F}
      → build_order_plan sized decision info tick options ≡ ok (some plan)
      → (decision.approved ≡ true) × Fits sized info tick options plan
  unfolding build_order_plan
  build_order_plan_lem sized decision info tick options {plan} e =
      elim (Bool-cases decision.approved) [
        | inr refused ↦ ground arith
        | inl granted ↦
            let (price, e₁, e₂) =
              >>=-eq-ok
                (price_of sized.intent.desired_order_type sized.intent.side
                  sized.intent.reference_price info tick)
                _ (rw granted at e) in
            (granted, plan_at-Fits sized info tick options price {plan = plan} e₁ (cc e₂))
      ]

module _ {F : Type 0} ⦃f : Float F⦄ (ord : IsOrdered F) (ar : IsArith F) where
  -- If the broker's least and greatest volume are in order and have at most eight decimals, the
  -- volume of a plan lies between them.
  pub clamp_volume_bounds :
      (volume : F) (info : SymbolInfo F)
      → info.volume_min ≼ info.volume_max
      → f.round_to info.volume_min 8 ≡ info.volume_min
      → f.round_to info.volume_max 8 ≡ info.volume_max
      → (info.volume_min ≼ clamp_volume volume info) × (clamp_volume volume info ≼ info.volume_max)
  unfolding clamp_volume
  clamp_volume_bounds volume info h lo hi =
      let stepped : F =
        if nought ⊏ info.volume_step
        then f.round (volume ⊘ info.volume_step) ⊗ info.volume_step
        else volume in
      let (a, b) = clamp_bounds ord info.volume_min info.volume_max stepped h in
      (
        subst (λ x. x ≼ clamp_volume volume info) lo (ar.round_to_mono _ _ 8 a),
        subst (λ x. clamp_volume volume info ≼ x) hi (ar.round_to_mono _ _ 8 b),
      )
