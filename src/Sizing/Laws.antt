-- ===== src/Sizing/Laws.antt =====
-- Proofs about sizing/money.py: the lot of each mode.
use mt5_mcp_trading_framewor.Common.{
  ◌&&◌, not, subst, sym, ◌≡◌, ◌⊎◌, inl, inr, Bool, true, false, ◌||◌, Bool-cases, arith, Text,
  codes, text_eq, text_eq-eq,
}
use mt5_mcp_trading_framewor.Float.{Float, IsOrdered, ◌≼◌, ◌⊑◌, nought, max, clamp_bounds}
use mt5_mcp_trading_framewor.Sizing.{
  MoneyConfig, LotInputs, normal_mode, is_falsy, atr_scale_lot, risk_percent_lot, lot_of_mode,
  decide_lot,
}

module _ {F : Type 0} ⦃f : Float F⦄ where
  abbrev pub IsWithin : MoneyConfig F → F → Type 0
  IsWithin config lot = (config.atr_scale_min ≼ lot) × (lot ≼ config.atr_scale_max)

  -- the risk mode lacks a risk, a stop distance, a point value or a price point
  abbrev pub is_misinformed : MoneyConfig F → LotInputs F → Bool
  is_misinformed config inputs =
      (max nought config.risk_per_trade ⊑ nought)
      || is_falsy config.stop_distance_points
      || is_falsy inputs.point_value_per_lot
      || is_falsy inputs.price_point

module _ {F : Type 0} ⦃f : Float F⦄ (ord : IsOrdered F) where
  atr_scale_lot-IsWithin :
      (config : MoneyConfig F) (inputs : LotInputs F)
      → config.atr_scale_min ≼ config.atr_scale_max
      → IsWithin config (atr_scale_lot config inputs).0
  unfolding atr_scale_lot
  atr_scale_lot-IsWithin config inputs h = clamp_bounds ord _ _ _ h

  risk_percent_lot_cases :
      (config : MoneyConfig F) (inputs : LotInputs F)
      → config.atr_scale_min ≼ config.atr_scale_max
      → (is_misinformed config inputs ≡ false → IsWithin config (risk_percent_lot config inputs).0)
        × (is_misinformed config inputs ≡ true
            → (risk_percent_lot config inputs).0 ≡ config.fixed_lot)
  unfolding risk_percent_lot
  risk_percent_lot_cases config inputs h = elim (Bool-cases (is_misinformed config inputs)) [
    | inl lacking ↦ (λ e. cc, λ _. rw lacking)
    | inr informed ↦ (λ _. rw informed (clamp_bounds ord _ _ _ h), λ e. cc)
  ]

  lot_of_mode_cases :
      (mode : Text) (config : MoneyConfig F) (inputs : LotInputs F)
      → config.atr_scale_min ≼ config.atr_scale_max
      → let lot = (lot_of_mode mode config inputs).0 in
        let is_atr_scale = text_eq mode (codes "atr_scale") in
        let is_risk_percent =
          text_eq mode (codes "risk_percent") && not (is_misinformed config inputs) in
        ((is_atr_scale ≡ true) × IsWithin config lot)
        ⊎ ((is_atr_scale ≡ false) × (is_risk_percent ≡ true) × IsWithin config lot)
        ⊎ ((is_atr_scale ≡ false) × (is_risk_percent ≡ false) × (lot ≡ config.fixed_lot))
  unfolding lot_of_mode
  lot_of_mode_cases mode config inputs h =
      let informed = text_eq mode (codes "risk_percent") && not (is_misinformed config inputs) in
      elim (Bool-cases (text_eq mode (codes "atr_scale"))) [
        | inl a ↦
            let e : mode ≡ codes "atr_scale" = text_eq-eq mode (codes "atr_scale") a in
            inl (
              a,
              subst (λ m. IsWithin config (lot_of_mode m config inputs).0) (sym e)
                  (atr_scale_lot-IsWithin config inputs h),
            )
        | inr na ↦ elim (Bool-cases informed) [
          | inl r ↦
              let yes : text_eq mode (codes "risk_percent") ≡ true = ground (arith, r) in
              let e : mode ≡ codes "risk_percent" = text_eq-eq mode (codes "risk_percent") yes in
              inr (
                inl (
                  na,
                  r,
                  subst (λ m. IsWithin config (lot_of_mode m config inputs).0) (sym e)
                      ((risk_percent_lot_cases config inputs h).0 (ground (arith, r))),
                ))
          | inr nr ↦ inr (inr (na, nr, ground (arith, (risk_percent_lot_cases config inputs h).1)))
        ]
      ]

  -- If the configured bounds are in order, the lot of the modes atr_scale and (when the risk, the
  -- stop, the point value and the price point are all set) risk_percent lies between them, and every
  -- other mode and every risk_percent decision that lacks an input gives the fixed lot.
  pub decide_lot_cases :
      (config : MoneyConfig F) (inputs : LotInputs F)
      → config.atr_scale_min ≼ config.atr_scale_max
      → let mode = normal_mode config.lot_size_mode in
        let lot = (decide_lot config inputs).lot in
        let is_atr_scale = text_eq mode (codes "atr_scale") in
        let is_risk_percent =
          text_eq mode (codes "risk_percent") && not (is_misinformed config inputs) in
        ((is_atr_scale ≡ true) × IsWithin config lot)
        ⊎ ((is_atr_scale ≡ false) × (is_risk_percent ≡ true) × IsWithin config lot)
        ⊎ ((is_atr_scale ≡ false) × (is_risk_percent ≡ false) × (lot ≡ config.fixed_lot))
  unfolding decide_lot
  decide_lot_cases config inputs h =
      lot_of_mode_cases (normal_mode config.lot_size_mode) config inputs h
