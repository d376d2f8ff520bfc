-- ===== src/Risk/Laws.antt =====
-- Proofs about risk/: the guards and their combination.
use mt5_mcp_trading_framewor.Common.{
  ℕ, ◌<◌, ◌≡◌, ◌↔◌, refl, true, false, List, [], ◌∷◌, ◌++◌, arith, length, All, Option-cases, inl,
  inr,
}
use mt5_mcp_trading_framewor.Common.Outcome.{ok}
use mt5_mcp_trading_framewor.Float.{Float, IsOrdered, IsArith, ◌⊕◌, ◌⊗◌, ◌≼◌, nought}
use mt5_mcp_trading_framewor.Domain.{Side, OrderState, PositionState, RiskDecision, Reason}
use mt5_mcp_trading_framewor.Risk.Defs.{
  ExposureCaps, all_reasons, first_rejection, combine, exceeds, check_exposure_cap, is_near,
  duplicate_scan, check_duplicate_order, check_position_limit,
}
use mt5_mcp_trading_framewor.Risk.DailyLoss.{DailyLossLimitConfig, check_daily_loss_limit}

module _ {F : Type 0} where
  abbrev pub IsApproved : RiskDecision F → Type 0
  IsApproved d = d.approved ≡ true

  first_rejection-IsApproved :
      (rs : List (Reason F)) (ds : List (RiskDecision F))
      → IsApproved (first_rejection rs ds) ↔ All IsApproved ds
  unfolding first_rejection
  first_rejection-IsApproved rs [] = ground arith
  first_rejection-IsApproved rs (d ∷ ds) = ground (arith, first_rejection-IsApproved rs ds)

  first_rejection-reasons :
      (rs : List (Reason F)) (ds : List (RiskDecision F)) → (first_rejection rs ds).reasons ≡ rs
  unfolding first_rejection
  first_rejection-reasons rs [] = refl
  first_rejection-reasons rs (d ∷ ds) = ground (arith, first_rejection-reasons rs ds)

  -- A combination is approved exactly when every decision in it is, and carries all their reasons in
  -- order either way.
  pub combine_iff :
      (ds : List (RiskDecision F)) {r : RiskDecision F}
      → combine ds ≡ ok r
      → (IsApproved r ↔ All IsApproved ds) × (r.reasons ≡ all_reasons ds)
  unfolding combine
  combine_iff [] e = cc
  combine_iff (d ∷ ds) e = ground (
    arith,
    first_rejection-IsApproved (all_reasons (d ∷ ds)) (d ∷ ds),
    first_rejection-reasons (all_reasons (d ∷ ds)) (d ∷ ds),
  )

  first_rejection-append :
      (rs : List (Reason F)) (pre post : List (RiskDecision F)) (d : RiskDecision F)
      → All IsApproved pre
      → d.approved ≡ false
      → first_rejection rs (pre ++ d ∷ post)
        ≡ record { approved = false; reasons = rs; blocking_guard = d.blocking_guard }
  unfolding first_rejection
  first_rejection-append rs [] post d h r = ground arith
  first_rejection-append rs (p ∷ pre) post d h r =
      ground (arith, first_rejection-append rs pre post d h.1 r)

  -- Behind approvals, the first rejection decides: its guard is the one that is named, whatever
  -- follows it.
  pub combine_first_rejection :
      (pre post : List (RiskDecision F)) (d : RiskDecision F)
      → All IsApproved pre
      → d.approved ≡ false
      → combine (pre ++ d ∷ post)
        ≡ ok (record {
          approved = false;
          reasons = all_reasons (pre ++ d ∷ post);
          blocking_guard = d.blocking_guard;
        })
  unfolding combine
  combine_first_rejection [] post d h r =
      ground (arith, first_rejection-append (all_reasons (d ∷ post)) [] post d h r)
  combine_first_rejection (p ∷ pre) post d h r =
      ground
        (arith, first_rejection-append (all_reasons (p ∷ (pre ++ d ∷ post))) (p ∷ pre) post d h r)

  -- The position limit approves exactly while fewer positions than the limit are open.
  pub check_position_limit_iff :
      (positions : List (PositionState F)) (n : ℕ)
      → IsApproved (check_position_limit positions n) ↔ (length positions < n)
  unfolding check_position_limit
  check_position_limit_iff positions n = ground arith

module _ {F : Type 0} ⦃f : Float F⦄ where
  -- An exposure is approved exactly when the total with the proposed volume exceeds neither of the
  -- caps that are set.
  pub check_exposure_cap_iff :
      (open_lots pending_lots proposed : F) (caps : ExposureCaps F)
      → IsApproved (check_exposure_cap open_lots pending_lots proposed caps) ↔ (
          (exceeds (open_lots ⊕ pending_lots ⊕ proposed) caps.max_open_lots ≡ false)
          × (exceeds (open_lots ⊕ pending_lots ⊕ proposed) caps.budget_max_lots ≡ false))
  unfolding check_exposure_cap
  check_exposure_cap_iff o p v caps = ground arith

  duplicate_scan_iff :
      (orders : List (OrderState F)) (side : Side) (price tolerance ticks : F)
      → IsApproved (duplicate_scan orders side price tolerance ticks)
        ↔ All (λ o. is_near side price tolerance o ≡ false) orders
  unfolding duplicate_scan
  duplicate_scan_iff [] side price tolerance ticks = ground arith
  duplicate_scan_iff (o ∷ os) side price tolerance ticks =
      ground (arith, duplicate_scan_iff os side price tolerance ticks)

  -- A price is approved exactly when no pending order of its side lies within `tol_ticks * point`.
  pub check_duplicate_order_iff :
      (orders : List (OrderState F)) (side : Side) (price point ticks : F)
      → IsApproved (check_duplicate_order orders side price point ticks)
        ↔ All (λ o. is_near side price (ticks ⊗ point) o ≡ false) orders
  unfolding check_duplicate_order
  check_duplicate_order_iff orders side price point ticks =
      duplicate_scan_iff orders side price (ticks ⊗ point) ticks

  module _ (ord : IsOrdered F) (ar : IsArith F) where
    -- Once the daily loss limit has tripped, every lower profit and loss figure that gets a decision
    -- trips it too.
    pub check_daily_loss_limit_mono :
        (pnl lower : F) (config : DailyLossLimitConfig F) {r s : RiskDecision F}
        → lower ≼ pnl
        → check_daily_loss_limit pnl config ≡ ok r
        → check_daily_loss_limit lower config ≡ ok s
        → r.approved ≡ false
        → s.approved ≡ false
    unfolding check_daily_loss_limit
    check_daily_loss_limit_mono pnl lower config h e e' t =
        elim (Option-cases config.max_daily_loss) [
          | inl off ↦ ground arith
          | inr (limit, on) ↦ ground (
            arith,
            ord.lt-eq-not-le lower nought,
            ord.lt-eq-not-le pnl nought,
            ord.le_trans nought lower pnl,
            ar.neg_anti lower pnl,
            ord.le_trans limit (f.neg pnl) (f.neg lower),
          )
        ]

    -- A figure that is not a loss never trips the limit, with a limit of zero included.
    pub check_daily_loss_limit_gain :
        (pnl : F) (config : DailyLossLimitConfig F) {r : RiskDecision F}
        → nought ≼ pnl
        → check_daily_loss_limit pnl config ≡ ok r
        → IsApproved r
    unfolding check_daily_loss_limit
    check_daily_loss_limit_gain pnl config h e = elim (Option-cases config.max_daily_loss) [
      | inl off ↦ ground arith
      | inr (limit, on) ↦ ground (arith, ord.lt-eq-not-le pnl nought)
    ]
