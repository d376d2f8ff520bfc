-- ===== src/Pipeline/Stops.antt =====
-- The stop-loss and take-profit that both cycles attach: rounded distances from a price, on the side
-- that the order's direction asks for.
use mt5_mcp_trading_framewor.Common.{ℕ, ◌≡◌, subst}
use mt5_mcp_trading_framewor.Float.{
  Float, IsOrdered, IsArith, ◌⊕◌, ◌⊖◌, ◌≼◌, nought, le-add, sub-le,
}
use mt5_mcp_trading_framewor.Domain.{Side, buy, sell}

module _ {F : Type 0} ⦃f : Float F⦄ where
  unfoldable pub stops : Side → (price sl_distance tp_distance : F) → ℕ → F × F
  stops buy price sl_distance tp_distance digits =
      (f.round_to (price ⊖ sl_distance) digits, f.round_to (price ⊕ tp_distance) digits)
  stops sell price sl_distance tp_distance digits =
      (f.round_to (price ⊕ sl_distance) digits, f.round_to (price ⊖ tp_distance) digits)

  -- the stop-loss is on the losing side of the price and the take-profit on the winning side
  abbrev pub IsBracketed : Side → F → F × F → Type 0
  IsBracketed buy price (sl, tp) = (sl ≼ price) × (price ≼ tp)
  IsBracketed sell price (sl, tp) = (tp ≼ price) × (price ≼ sl)

module _ {F : Type 0} ⦃f : Float F⦄ (ord : IsOrdered F) (ar : IsArith F) where
  rounded_below :
      (price d : F) (digits : ℕ)
      → nought ≼ d
      → f.round_to price digits ≡ price
      → f.round_to (price ⊖ d) digits ≼ price
  rounded_below price d digits h e =
      subst (λ p. f.round_to (price ⊖ d) digits ≼ p) e
        (ar.round_to_mono _ _ digits (sub-le ord ar price d h))

  rounded_above :
      (price d : F) (digits : ℕ)
      → nought ≼ d
      → f.round_to price digits ≡ price
      → price ≼ f.round_to (price ⊕ d) digits
  rounded_above price d digits h e =
      subst (λ p. p ≼ f.round_to (price ⊕ d) digits) e
        (ar.round_to_mono _ _ digits (le-add ord ar price d h))

  -- The stops lie on their sides of the price as the same rounding gives it, since rounding keeps order.
  pub stops_rounded-IsBracketed :
      (side : Side) (price sl_distance tp_distance : F) (digits : ℕ)
      → nought ≼ sl_distance
      → nought ≼ tp_distance
      → IsBracketed side (f.round_to price digits) (stops side price sl_distance tp_distance digits)
  unfolding stops
  stops_rounded-IsBracketed buy price s t digits h k = (
    ar.round_to_mono _ _ digits (sub-le ord ar price s h),
    ar.round_to_mono _ _ digits (le-add ord ar price t k),
  )
  stops_rounded-IsBracketed sell price s t digits h k = (
    ar.round_to_mono _ _ digits (sub-le ord ar price t k),
    ar.round_to_mono _ _ digits (le-add ord ar price s h),
  )

  pub stops-IsBracketed :
      (side : Side) (price sl_distance tp_distance : F) (digits : ℕ)
      → nought ≼ sl_distance
      → nought ≼ tp_distance
      → f.round_to price digits ≡ price
      → IsBracketed side price (stops side price sl_distance tp_distance digits)
  unfolding stops
  stops-IsBracketed buy price s t digits h k e =
      (rounded_below price s digits h e, rounded_above price t digits k e)
  stops-IsBracketed sell price s t digits h k e =
      (rounded_below price t digits k e, rounded_above price s digits h e)
