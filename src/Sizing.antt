-- ===== src/Sizing.antt =====
-- sizing/money.py: the lot size of an order, in one of three modes. The values that the source coerces
-- with `_nz` are floats or absent here, so the coercion is the default for an absent one.
pub mod Laws
use mt5_mcp_trading_framewor.Common.{
  ℕ, Bool, true, false, ◌||◌, ◌&&◌, not, Option, none, some, List, [], ◌∷◌, Text, codes, text_eq,
  lower, strip, if◌then◌else◌,
}
use mt5_mcp_trading_framewor.Float.{Float, ◌⊗◌, ◌⊘◌, ◌⊑◌, ◌⊏◌, nought, max, min}
use mt5_mcp_trading_framewor.Domain.{
  TradeIntent, LotDecision, SizedIntent, Reason, mode_fixed, mode_atr_scale, insufficient_inputs,
  mode_risk_percent, mode_not_recognized, lots_hint,
}

pub record MoneyConfig (F : Type 0) : Type 0 where
  pub lot_size_mode : Text
  pub fixed_lot : F
  pub atr_scale_base : F
  pub atr_scale_ref : F
  pub atr_scale_min : F
  pub atr_scale_max : F
  pub risk_per_trade : F
  pub stop_distance_points : Option F
  pub max_open_lots_hint : Option F

-- the keyword arguments of `decide_lot`
pub record LotInputs (F : Type 0) : Type 0 where
  pub atr : Option F
  pub step : Option F
  pub account_balance : F
  pub point_value_per_lot : Option F
  pub price_point : Option F
  pub open_lots_now : Option F
  pub pending_lots_now : Option F

-- `(config.lot_size_mode or "fixed").lower().strip()`
abbrev pub or_fixed : Text → Text
or_fixed [] = codes "fixed"
or_fixed (c ∷ s) = c ∷ s

abbrev pub normal_mode : Text → Text
normal_mode mode = strip (lower (or_fixed mode))

module _ {F : Type 0} ⦃f : Float F⦄ where
  -- `_nz(x, alt)` and `_nz_optional(x)`
  abbrev pub nz : Option F → F → F
  nz none alt = alt
  nz (some x) alt = x

  -- `1e-9`
  abbrev tiny : F
  tiny = f.ratio 1 1_000_000_000

  -- `not x`, for a number that may be absent
  abbrev pub is_falsy : Option F → Bool
  is_falsy none = true
  is_falsy (some x) = (x ⊑ nought) && (nought ⊑ x)

  abbrev pub clamp_lot : MoneyConfig F → F → F
  clamp_lot config raw = max config.atr_scale_min (min config.atr_scale_max raw)

  -- each mode gives the lot and its reason
  unfoldable pub atr_scale_lot : MoneyConfig F → LotInputs F → F × Reason F
  atr_scale_lot config inputs =
      let s = max tiny (nz inputs.step (nz inputs.atr nought)) in
      let ref = max tiny config.atr_scale_ref in
      let raw = config.atr_scale_base ⊗ (ref ⊘ s) in
      let lot = clamp_lot config raw in
      (
        lot,
        mode_atr_scale config.atr_scale_base ref s raw lot config.atr_scale_min
            config.atr_scale_max,
      )

  unfoldable pub risk_percent_lot : MoneyConfig F → LotInputs F → F × Reason F
  risk_percent_lot config inputs =
      let rp = max nought config.risk_per_trade in
      let sd = config.stop_distance_points in
      let ppv = inputs.point_value_per_lot in
      let pp = inputs.price_point in
      if (rp ⊑ nought) || is_falsy sd || is_falsy ppv || is_falsy pp
      then (config.fixed_lot, insufficient_inputs rp sd ppv pp config.fixed_lot)
      else let risk_dollar = inputs.account_balance ⊗ rp in
        let per_lot_risk = nz sd nought ⊗ nz ppv nought in
        let raw = risk_dollar ⊘ max tiny per_lot_risk in
        let lot = clamp_lot config raw in
        (
          lot,
          mode_risk_percent inputs.account_balance rp risk_dollar (nz sd nought) (nz ppv nought) raw
              lot config.atr_scale_min config.atr_scale_max,
        )

  unfoldable pub lot_of_mode : Text → MoneyConfig F → LotInputs F → F × Reason F
  unfolding atr_scale_lot risk_percent_lot
  lot_of_mode mode config inputs =
      if text_eq mode (codes "fixed")
      then (config.fixed_lot, mode_fixed config.fixed_lot)
      else if text_eq mode (codes "atr_scale")
      then atr_scale_lot config inputs
      else if text_eq mode (codes "risk_percent")
      then risk_percent_lot config inputs
      else (config.fixed_lot, mode_not_recognized mode config.fixed_lot)

  abbrev hint_reasons : Option F → LotInputs F → List (Reason F)
  hint_reasons none inputs = []
  hint_reasons (some hint) inputs =
      lots_hint hint (nz inputs.open_lots_now nought) (nz inputs.pending_lots_now nought) ∷ []

  abbrev decision_of : Text → F × Reason F → List (Reason F) → LotDecision F
  decision_of mode (lot, reason) hints = record { lot = lot; mode = mode; reasons = reason ∷ hints }

  unfoldable pub decide_lot : MoneyConfig F → LotInputs F → LotDecision F
  unfolding lot_of_mode
  decide_lot config inputs =
      let mode = normal_mode config.lot_size_mode in
      decision_of mode (lot_of_mode mode config inputs)
        (hint_reasons config.max_open_lots_hint inputs)

unfoldable pub to_sized_intent : {F : Type 0} → TradeIntent F → LotDecision F → SizedIntent F
to_sized_intent intent decision = record {
  intent = intent;
  volume = decision.lot;
  sizing_mode = decision.mode;
  sizing_rationale = decision.reasons;
}
