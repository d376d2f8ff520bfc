-- ===== src/Backtest/Ledger/Laws.antt =====
-- Proofs about backtest/ledger.py: the tickets of orders and positions.
use mt5_mcp_trading_framewor.Common.{
  ℕ, suc, ◌≡◌, refl, true, false, none, some, arith, Option-cases, inl, inr, subst, sym, ◌⊎◌,
}
use mt5_mcp_trading_framewor.Common.Outcome.{ok, raised, key_error, value_error}
use mt5_mcp_trading_framewor.Common.Action.{Preserves, >>=-Preserves, raise_if, raise_if-Preserves}
use mt5_mcp_trading_framewor.Float.{Float, ◌⊖◌, ◌⊑◌, nought}
use mt5_mcp_trading_framewor.Domain.{Time}
use mt5_mcp_trading_framewor.Backtest.Dict.{
  get, has, set, without, IsBelow, has-set, has-without, has-below, IsBelow-set, IsBelow-without,
  IsBelow-suc, below-has, get-has,
}
use mt5_mcp_trading_framewor.Backtest.Ledger.{
  BacktestLedger, OpenPosition, PendingOrder, new_ledger, new_ticket, add_pending_order,
  add_open_position, pop_position, fill_pending_order, position_of, close_position, CloseReason,
  finish_close, append_trade, trade_of, ClosedTrade,
}

module _ {F : Type 0} where
  -- All tickets in use have been given, and none is both an order's and a position's.
  unfoldable pub IsSound : BacktestLedger F → Type 0
  IsSound l =
      IsBelow l.next_ticket l.open_positions
      × IsBelow l.next_ticket l.pending_orders
      × ((k : ℕ) → has k l.pending_orders ≡ true → has k l.open_positions ≡ false)

pub new_ledger-IsSound : (F : Type 0) → IsSound {F = F} new_ledger
unfolding IsSound
new_ledger-IsSound F = (tt, tt, λ k h. refl)

module _ {F : Type 0} where
  pub add_pending_order-IsSound :
      (order : PendingOrder F) → Preserves IsSound (add_pending_order order)
  unfolding add_pending_order new_ticket IsSound
  add_pending_order-IsSound order l (a, b, d) =
      let n = l.next_ticket in
      (
        IsBelow-suc n l.open_positions a,
        IsBelow-set (suc n) n _ l.pending_orders (omega arith) (IsBelow-suc n l.pending_orders b),
        λ k h. ground (
          arith,
          d k,
          h,
          has-set k n (record order { ticket = n }) l.pending_orders,
          has-below n l.open_positions a,
        ),
      )

  pub open_fresh-IsSound :
      (position : OpenPosition F) → Preserves IsSound (add_open_position position none)
  unfolding add_open_position new_ticket IsSound
  open_fresh-IsSound position l (a, b, d) =
      let n = l.next_ticket in
      (
        IsBelow-set (suc n) n _ l.open_positions (omega arith) (IsBelow-suc n l.open_positions a),
        IsBelow-suc n l.pending_orders b,
        λ k h. ground (
          arith,
          d k,
          h,
          has-set k n (record position { ticket = n }) l.open_positions,
          has-below n l.pending_orders b,
        ),
      )

  pub cancelled-IsSound :
      (ticket : ℕ) (l : BacktestLedger F)
      → IsSound l
      → IsSound (record l { pending_orders = without ticket l.pending_orders })
  unfolding IsSound
  cancelled-IsSound ticket l (a, b, d) = (
    a,
    IsBelow-without l.next_ticket ticket l.pending_orders b,
    λ k h. ground (arith, d k, h, has-without k ticket l.pending_orders),
  )

  pub popped-IsSound :
      (ticket : ℕ) (l : BacktestLedger F)
      → IsSound l
      → IsSound (record l { open_positions = without ticket l.open_positions })
  unfolding IsSound
  popped-IsSound ticket l (a, b, d) = (
    IsBelow-without l.next_ticket ticket l.open_positions a,
    b,
    λ k h. ground (arith, d k, h, has-without k ticket l.open_positions),
  )

  -- A pending order that fills becomes a position with the same ticket, symbol, side, volume and stops,
  -- opened at the limit price; without such an order there is a `KeyError` and no change.
  pub fill_pending_order_lem :
      (ticket : ℕ) (time : Time) (l : BacktestLedger F)
      → ((get ticket l.pending_orders ≡ none)
          × (fill_pending_order ticket time l ≡ (raised key_error, l)))
        ⊎ ((order : PendingOrder F) × (get ticket l.pending_orders ≡ some order)
            × (fill_pending_order ticket time l ≡ (
              ok ticket,
              record l {
                pending_orders = without ticket l.pending_orders;
                open_positions =
                    set ticket
                      (record (position_of order time) { ticket = ticket })
                      l.open_positions;
              },
            )))
  unfolding fill_pending_order add_open_position
  fill_pending_order_lem ticket time l = elim (Option-cases (get ticket l.pending_orders)) [
    | inl missing ↦ inl (missing, ground (arith, missing))
    | inr (order, e) ↦ inr (order, e, ground (arith, e))
  ]

  filled-IsSound :
      (ticket : ℕ) (position : OpenPosition F) (l : BacktestLedger F)
      → has ticket l.pending_orders ≡ true
      → IsSound l
      → IsSound (record l {
        pending_orders = without ticket l.pending_orders;
        open_positions = set ticket position l.open_positions;
      })
  unfolding IsSound
  filled-IsSound ticket position l h (a, b, d) = (
    IsBelow-set l.next_ticket ticket position l.open_positions (below-has _ ticket _ b h) a,
    IsBelow-without l.next_ticket ticket l.pending_orders b,
    λ k g. ground (
      arith,
      d k,
      g,
      has-without k ticket l.pending_orders,
      has-set k ticket position l.open_positions,
    ),
  )

  pub fill_pending_order-IsSound :
      (ticket : ℕ) (time : Time) → Preserves IsSound (fill_pending_order {F = F} ticket time)
  fill_pending_order-IsSound ticket time l h = elim (fill_pending_order_lem ticket time l) [
    | inl (missing, e) ↦ subst (λ r. IsSound r.1) (sym e) h
    | inr (order, e₁, e₂) ↦
        subst (λ r. IsSound r.1) (sym e₂)
          (filled-IsSound ticket _ l (get-has ticket l.pending_orders e₁) h)
  ]

  pop_position-IsSound : (ticket : ℕ) → Preserves IsSound (pop_position {F = F} ticket)
  pop_position-IsSound ticket l h = elim (Option-cases (get ticket l.open_positions)) [
    | inl missing ↦ rw (missing, pop_position) h
    | inr (position, e) ↦ rw (e, pop_position) (popped-IsSound ticket l h)
  ]

module _ {F : Type 0} ⦃f : Float F⦄ where
  append_trade-IsSound : (trade : ClosedTrade F) → Preserves IsSound (append_trade trade)
  unfolding IsSound
  append_trade-IsSound trade l h = h

  pub close_position-IsSound :
      (ticket : ℕ) (price : F) (reason : CloseReason) (time : Time)
      → Preserves IsSound (close_position ticket price reason time)
  unfolding close_position
  close_position-IsSound ticket price reason time =
      >>=-Preserves IsSound (pop_position ticket) (finish_close ticket price reason time)
        (pop_position-IsSound ticket)
        (λ position.
          >>=-Preserves IsSound
            (raise_if (f.abs (position.price_open ⊖ position.sl) ⊑ nought) value_error)
            (λ _. append_trade (trade_of ticket position price reason time))
            (raise_if-Preserves IsSound _ value_error)
            (λ _. append_trade-IsSound (trade_of ticket position price reason time)))
