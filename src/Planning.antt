-- ===== src/Planning.antt =====
-- order_planning/: limit prices kept clear of the market, volumes fitted to the broker's steps, and the
-- order plan.
pub mod Laws
use mt5_mcp_trading_framewor.Common.{
  ℕ, ◌+◌, Bool, true, false, not, ◌&&◌, Option, none, some, String, if◌then◌else◌,
}
use mt5_mcp_trading_framewor.Common.Outcome.{
  Outcome, ok, raised, value_error, zero_division, ◌>>=◌, ◌>>◌, raise_if,
}
use mt5_mcp_trading_framewor.Float.{Float, ◌⊕◌, ◌⊖◌, ◌⊗◌, ◌⊘◌, ◌⊏◌, ◌⊑◌, nought, max, min}
use mt5_mcp_trading_framewor.Domain.{
  Side, buy, sell, SymbolInfo, Tick, TradeIntent, SizedIntent, RiskDecision, OrderPlan, OrderType,
  market_order, limit_order,
}

pub data LimitSide : Type 0 where
  buy_limit sell_limit : LimitSide

abbrev pub limit_side : Side → LimitSide
limit_side buy = buy_limit
limit_side sell = sell_limit

abbrev comment_or : Option String → String → String
comment_or none name = name
comment_or (some c) name = c

-- the keyword arguments of `build_order_plan`
pub record PlanOptions (F : Type 0) : Type 0 where
  pub magic : ℕ
  pub comment : Option String
  pub deviation : ℕ
  pub sl : F
  pub tp : F

module _ {F : Type 0} ⦃f : Float F⦄ where
  abbrev pub gap : SymbolInfo F → F
  gap info = f.of_nat (info.stops_level + info.freeze_level + 2) ⊗ info.point

  abbrev snap : F → F → F
  snap point x = f.round (x ⊘ point) ⊗ point

  -- the price where the point is not zero
  abbrev pub limit_price : F → LimitSide → SymbolInfo F → Tick F → Option F
  limit_price price buy_limit info tick =
      let point = info.point in
      let p = snap point price in
      let min_ok = tick.bid ⊖ gap info in
      let q = if p ⊏ min_ok then p else snap point (min_ok ⊖ f.of_nat 3 ⊗ point) in
      if q ⊏ tick.bid ⊖ gap info then some q else none
  limit_price price sell_limit info tick =
      let point = info.point in
      let p = snap point price in
      let min_ok = tick.ask ⊕ gap info in
      let q = if min_ok ⊏ p then p else snap point (min_ok ⊕ f.of_nat 3 ⊗ point) in
      if tick.ask ⊕ gap info ⊏ q then some q else none

  abbrev pub is_zero : F → Bool
  is_zero x = (x ⊑ nought) && (nought ⊑ x)

  -- `round(x / point)` raises for a point of zero
  unfoldable pub normalize_limit_price : F → LimitSide → SymbolInfo F → Tick F → Outcome (Option F)
  normalize_limit_price price side info tick =
      if is_zero info.point then raised zero_division else ok (limit_price price side info tick)

  unfoldable pub clamp_volume : F → SymbolInfo F → F
  clamp_volume volume info =
      let step = info.volume_step in
      let stepped = if nought ⊏ step then f.round (volume ⊘ step) ⊗ step else volume in
      f.round_to (max info.volume_min (min info.volume_max stepped)) 8

  -- the price of the plan; `none` in the outcome means that no limit price can be had
  abbrev pub price_of : OrderType → Side → Option F → SymbolInfo F → Tick F → Outcome (Option F)
  price_of limit_order side none info tick = raised value_error
  price_of limit_order side (some price) info tick =
      normalize_limit_price price (limit_side side) info tick
  price_of market_order side (some price) info tick = ok (some price)
  price_of market_order buy none info tick = ok (some tick.ask)
  price_of market_order sell none info tick = ok (some tick.bid)

  abbrev pub plan_at :
      SizedIntent F → SymbolInfo F → PlanOptions F → Option F → Option (OrderPlan F)
  plan_at sized info options none = none
  plan_at sized info options (some price) = some (record {
    symbol = sized.intent.symbol;
    order_type = sized.intent.desired_order_type;
    side = sized.intent.side;
    volume = clamp_volume sized.volume info;
    price = some price;
    sl = options.sl;
    tp = options.tp;
    deviation = options.deviation;
    magic = options.magic;
    comment = comment_or options.comment sized.intent.strategy_name;
    filling_mode = none;
    expiry = none;
  })

  unfoldable pub build_order_plan :
      SizedIntent F
      → RiskDecision F
      → SymbolInfo F
      → Tick F
      → PlanOptions F
      → Outcome (Option (OrderPlan F))
  build_order_plan sized decision info tick options = do
    raise_if (not decision.approved) value_error
    price ←
        price_of sized.intent.desired_order_type sized.intent.side sized.intent.reference_price info
          tick
    ok (plan_at sized info options price)
