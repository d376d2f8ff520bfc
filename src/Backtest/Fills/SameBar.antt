-- ===== src/Backtest/Fills/SameBar.antt =====
-- Proofs about `check_fills_and_exits` of backtest/engine.py: the positions that the bar itself has
-- filled.
use mt5_mcp_trading_framewor.Common.{
  none, some, ℕ, ◌≡◌, true, false, Option, List, [], ◌∷◌, ◌==◌, ==_iff, arith, Option-cases,
  Bool-cases, inl, inr, subst,
}
use mt5_mcp_trading_framewor.Common.Outcome.{Outcome, ok, raised, value_error}
use mt5_mcp_trading_framewor.Common.Action.{
  Preserves, ◌>>=◌, >>=-Preserves, raise_if, raise_if-Preserves,
}
use mt5_mcp_trading_framewor.Float.{Float, ◌⊖◌, ◌⊑◌, nought}
use mt5_mcp_trading_framewor.Domain.{MarketBar, Time}
use mt5_mcp_trading_framewor.State.Reconcile.{mem}
use mt5_mcp_trading_framewor.Backtest.Dict.{Dict, get, get-without}
use mt5_mcp_trading_framewor.Backtest.Ledger.{
  BacktestLedger, OpenPosition, CloseReason, pop_position, finish_close, append_trade, trade_of,
  close_position,
}
use mt5_mcp_trading_framewor.Backtest.Fills.{fill_all, due, exit_all, check_fills_and_exits}
use mt5_mcp_trading_framewor.Backtest.Fills.Laws.{due-just_filled}
use mt5_mcp_trading_framewor.Backtest.Fills.Marks.{Marks, fill_all-Marks}

module _ {F : Type 0} where
  -- the position of this ticket is `p`, or there is none
  abbrev pub Holds : ℕ → Option (OpenPosition F) → BacktestLedger F → Type 0
  Holds k p l = get k l.open_positions ≡ p

  pop_position-Holds :
      (k : ℕ) (p : Option (OpenPosition F)) (ticket : ℕ)
      → (k == ticket) ≡ false
      → Preserves (Holds k p) (pop_position ticket)
  pop_position-Holds k p ticket other l h = elim (Option-cases (get ticket l.open_positions)) [
    | inl missing ↦ rw (missing, pop_position) h
    | inr (position, e) ↦ ground (arith, e, other, h, get-without k ticket l.open_positions)
  ]

module _ {F : Type 0} ⦃f : Float F⦄ where
  close_position-Holds :
      (k : ℕ) (p : Option (OpenPosition F)) (ticket : ℕ) (price : F) (reason : CloseReason)
      (time : Time)
      → (k == ticket) ≡ false
      → Preserves (Holds k p) (close_position ticket price reason time)
  unfolding close_position
  close_position-Holds k p ticket price reason time other =
      >>=-Preserves (Holds k p) (pop_position ticket) (finish_close ticket price reason time)
        (pop_position-Holds k p ticket other)
        (λ position.
          >>=-Preserves (Holds k p)
            (raise_if (f.abs (position.price_open ⊖ position.sl) ⊑ nought) value_error)
            (λ _. append_trade (trade_of ticket position price reason time))
            (raise_if-Preserves (Holds k p) _ value_error) (λ _ l h. h))

  exit_all-Holds :
      (bar : MarketBar F) (just_filled : List ℕ) (positions : Dict (OpenPosition F)) (k : ℕ)
      (p : Option (OpenPosition F))
      → mem k just_filled ≡ true
      → Preserves (Holds k p) (exit_all bar just_filled positions)
  unfolding exit_all
  exit_all-Holds bar just_filled [] k p filled l h = h
  exit_all-Holds bar just_filled ((ticket, position) ∷ rest) k p filled l h =
      elim (Option-cases (due bar just_filled ticket position)) [
        | inl none_due ↦
            rw (none_due, exit_all) (exit_all-Holds bar just_filled rest k p filled l h)
        | inr (exit, e) ↦ elim (Bool-cases (k == ticket)) [
          | inl same ↦
              let at_k : k ≡ ticket = (==_iff k ticket).0 same in
              let none_due =
                due-just_filled bar just_filled ticket position
                  (subst (λ t. mem t just_filled ≡ true) at_k filled) in
              absurd (ground (arith, e, none_due))
          | inr other ↦
              rw (e, exit_all)
                (>>=-Preserves (Holds k p) (close_position ticket exit.1 exit.0 bar.time)
                  (λ _. exit_all bar just_filled rest)
                  (close_position-Holds k p ticket exit.1 exit.0 bar.time other)
                  (λ _. exit_all-Holds bar just_filled rest k p filled) l h)
        ]
      ]

  exits_keep :
      (bar : MarketBar F) (l : BacktestLedger F) (k : ℕ) (position : OpenPosition F)
      (end : Outcome (List ℕ) × BacktestLedger F)
      → Marks k l end
      → get k l.open_positions ≡ none
      → get k end.1.open_positions ≡ some position
      → get k (((λ _. end) >>= λ now l'. exit_all bar now l'.open_positions l') l).1.open_positions
        ≡ some position
  unfolding Marks
  exits_keep bar l k position (raised e, l') marked before after = after
  exits_keep bar l k position (ok now, l') (inl named) before after =
      exit_all-Holds bar now l'.open_positions k (some position) named l' after
  exits_keep bar l k position (ok now, l') (inr kept) before after = cc

  -- A position that a bar opens, so that it is there after the bar's fills and was not before them, is
  -- open and unchanged after that bar's exits, wherever its stops lie and whether or not a fill or an
  -- exit of another position raised.
  pub check_fills_and_exits_same_bar :
      (bar : MarketBar F) (l : BacktestLedger F) (k : ℕ) (position : OpenPosition F)
      → get k l.open_positions ≡ none
      → get k (fill_all bar l.pending_orders [] l).1.open_positions ≡ some position
      → get k (check_fills_and_exits bar l).1.open_positions ≡ some position
  unfolding check_fills_and_exits
  check_fills_and_exits_same_bar bar l k position before after =
      exits_keep bar l k position (fill_all bar l.pending_orders [] l)
        (fill_all-Marks bar l.pending_orders [] k l) before after
