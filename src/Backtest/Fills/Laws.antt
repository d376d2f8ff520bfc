-- ===== src/Backtest/Fills/Laws.antt =====
-- Proofs about `check_fills_and_exits` of backtest/engine.py: exits and tickets.
use mt5_mcp_trading_framewor.Common.{
  ℕ, ◌≡◌, true, false, none, some, List, [], ◌∷◌, arith, Option-cases, inl, inr, ◌⊎◌,
}
use mt5_mcp_trading_framewor.Common.Outcome.{Outcome}
use mt5_mcp_trading_framewor.Common.Action.{Preserves, ◌>>=◌, >>=-Preserves}
use mt5_mcp_trading_framewor.Float.{Float}
use mt5_mcp_trading_framewor.Domain.{MarketBar}
use mt5_mcp_trading_framewor.State.Reconcile.{mem}
use mt5_mcp_trading_framewor.Backtest.Dict.{Dict}
use mt5_mcp_trading_framewor.Backtest.Ledger.{
  BacktestLedger, OpenPosition, PendingOrder, fill_pending_order, close_position, stop_loss,
  take_profit,
}
use mt5_mcp_trading_framewor.Backtest.Ledger.Laws.{
  IsSound, fill_pending_order-IsSound, close_position-IsSound,
}
use mt5_mcp_trading_framewor.Backtest.Fills.{
  crosses, fill_all, sl_hit, tp_hit, exit_of, due, exit_all, check_fills_and_exits,
}

module _ {F : Type 0} ⦃f : Float F⦄ where
  fill_all-IsSound :
      (bar : MarketBar F) (orders : Dict (PendingOrder F)) (just_filled : List ℕ)
      → Preserves IsSound (fill_all bar orders just_filled)
  unfolding fill_all
  fill_all-IsSound bar [] just_filled l h = h
  fill_all-IsSound bar ((ticket, order) ∷ rest) just_filled l h =
      elim (crosses bar order)
        as (λ b.
          IsSound
            (elim b as (λ _. Outcome (List ℕ) × BacktestLedger F) [
              | true ↦
                  (fill_pending_order ticket bar.time >>= λ _.
                  fill_all bar rest (ticket ∷ just_filled))
                    l
              | false ↦ fill_all bar rest just_filled l
            ]).1) [
              | true ↦
                  >>=-Preserves IsSound (fill_pending_order ticket bar.time)
                    (λ _. fill_all bar rest (ticket ∷ just_filled))
                    (fill_pending_order-IsSound ticket bar.time)
                    (λ _. fill_all-IsSound bar rest (ticket ∷ just_filled)) l h
              | false ↦ fill_all-IsSound bar rest just_filled l h
            ]

  exit_all-IsSound :
      (bar : MarketBar F) (just_filled : List ℕ) (positions : Dict (OpenPosition F))
      → Preserves IsSound (exit_all bar just_filled positions)
  unfolding exit_all
  exit_all-IsSound bar just_filled [] l h = h
  exit_all-IsSound bar just_filled ((ticket, position) ∷ rest) l h =
      elim (Option-cases (due bar just_filled ticket position)) [
        | inl none_due ↦ rw (none_due, exit_all) (exit_all-IsSound bar just_filled rest l h)
        | inr (exit, e) ↦
            rw (e, exit_all)
              (>>=-Preserves IsSound (close_position ticket exit.1 exit.0 bar.time)
                (λ _. exit_all bar just_filled rest)
                (close_position-IsSound ticket exit.1 exit.0 bar.time)
                (λ _. exit_all-IsSound bar just_filled rest) l h)
      ]

  pub check_fills_and_exits-IsSound :
      (bar : MarketBar F) → Preserves IsSound (check_fills_and_exits bar)
  unfolding check_fills_and_exits
  check_fills_and_exits-IsSound bar l h =
      >>=-Preserves IsSound (fill_all bar l.pending_orders [])
        (λ just_filled l'. exit_all bar just_filled l'.open_positions l')
        (fill_all-IsSound bar l.pending_orders [])
        (λ just_filled l'. exit_all-IsSound bar just_filled l'.open_positions l') l h

  -- A position that was filled in this bar has no exit in it.
  pub due-just_filled :
      (bar : MarketBar F) (just_filled : List ℕ) (ticket : ℕ) (position : OpenPosition F)
      → mem ticket just_filled ≡ true
      → due bar just_filled ticket position ≡ none
  due-just_filled bar just_filled ticket position h = ground (arith, h)

module _ {F : Type 0} ⦃f : Float F⦄ where
  -- Which exit a bar makes of a position: with the stop-loss in reach, the stop-loss, also where the
  -- take-profit is in reach; with only the take-profit in reach, the take-profit; and else none.
  pub exit_of_cases :
      (bar : MarketBar F) (p : OpenPosition F)
      → ((sl_hit bar p.side p.sl ≡ true) × (exit_of bar p ≡ some (stop_loss, p.sl)))
        ⊎ ((sl_hit bar p.side p.sl ≡ false)
            × (tp_hit bar p.side p.tp ≡ true)
            × (exit_of bar p ≡ some (take_profit, p.tp)))
        ⊎ ((sl_hit bar p.side p.sl ≡ false)
            × (tp_hit bar p.side p.tp ≡ false)
            × (exit_of bar p ≡ none))
  unfolding exit_of
  exit_of_cases bar p = ground arith
