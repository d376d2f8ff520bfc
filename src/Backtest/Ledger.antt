-- ===== src/Backtest/Ledger.antt =====
-- backtest/ledger.py: positions, pending orders and closed trades of a replay.
pub mod Laws
use mt5_mcp_trading_framewor.Common.{
  ℕ, suc, Bool, true, false, ◌&&◌, Option, none, some, List, [], ◌∷◌, ◌++◌, String, str_eq, ◌==◌,
  if◌then◌else◌, keep,
}
use mt5_mcp_trading_framewor.Common.Outcome.{ok, raised, key_error, value_error}
use mt5_mcp_trading_framewor.Common.Action.{Action, ◌>>=◌, ◌>>◌, pure, raise_if}
use mt5_mcp_trading_framewor.Float.{Float, ◌⊖◌, ◌⊗◌, ◌⊘◌, ◌⊑◌, nought}
use mt5_mcp_trading_framewor.Domain.{Time, Side, buy, sell}
use mt5_mcp_trading_framewor.Backtest.Dict.{Dict, get, set, without, values}

pub record OpenPosition (F : Type 0) : Type 0 where
  pub ticket : ℕ
  pub symbol : String
  pub side : Side
  pub volume : F
  pub price_open : F
  pub sl : F
  pub tp : F
  pub magic : ℕ
  pub comment : String
  pub opened_at : Time

pub record PendingOrder (F : Type 0) : Type 0 where
  pub ticket : ℕ
  pub symbol : String
  pub side : Side
  pub volume : F
  pub price : F
  pub sl : F
  pub tp : F
  pub magic : ℕ
  pub comment : String
  pub placed_at : Time

pub data CloseReason : Type 0 where
  stop_loss take_profit manual_close : CloseReason

pub record ClosedTrade (F : Type 0) : Type 0 where
  pub ticket : ℕ
  pub symbol : String
  pub side : Side
  pub volume : F
  pub price_open : F
  pub price_close : F
  pub sl : F
  pub tp : F
  pub magic : ℕ
  pub comment : String
  pub opened_at : Time
  pub closed_at : Time
  pub close_reason : CloseReason
  pub r_multiple : F
  pub notional_pnl : F

pub record BacktestLedger (F : Type 0) : Type 0 where
  pub next_ticket : ℕ
  pub open_positions : Dict (OpenPosition F)
  pub pending_orders : Dict (PendingOrder F)
  pub closed_trades : List (ClosedTrade F)

-- `BacktestLedger()`
abbrev pub new_ledger : {F : Type 0} → BacktestLedger F
new_ledger = record {
  next_ticket = 1;
  open_positions = [];
  pending_orders = [];
  closed_trades = [];
}

-- a filter of `None` admits everything
abbrev pub admits : Option String → Option ℕ → String → ℕ → Bool
admits none none symbol magic = true
admits none (some m) symbol magic = magic == m
admits (some s) none symbol magic = str_eq symbol s
admits (some s) (some m) symbol magic = str_eq symbol s && (magic == m)

module _ {F : Type 0} where
  unfoldable pub new_ticket : Action (BacktestLedger F) ℕ
  new_ticket l = (ok l.next_ticket, record l { next_ticket = suc l.next_ticket })

  -- The record that is passed is the one that is stored, but for its ticket.
  unfoldable pub add_pending_order : PendingOrder F → Action (BacktestLedger F) ℕ
  unfolding new_ticket
  add_pending_order order = do
    ticket ← new_ticket
    λ l. (
      ok ticket,
      record l { pending_orders = set ticket (record order { ticket = ticket }) l.pending_orders },
    )

  abbrev pub put_position : OpenPosition F → ℕ → Action (BacktestLedger F) ℕ
  put_position position ticket l = (
    ok ticket,
    record l { open_positions = set ticket (record position { ticket = ticket }) l.open_positions },
  )

  unfoldable pub add_open_position : OpenPosition F → Option ℕ → Action (BacktestLedger F) ℕ
  unfolding new_ticket
  add_open_position position none = new_ticket >>= put_position position
  add_open_position position (some ticket) = put_position position ticket

  abbrev pub position_of : PendingOrder F → Time → OpenPosition F
  position_of order opened_at = record {
    ticket = order.ticket;
    symbol = order.symbol;
    side = order.side;
    volume = order.volume;
    price_open = order.price;
    sl = order.sl;
    tp = order.tp;
    magic = order.magic;
    comment = order.comment;
    opened_at = opened_at;
  }

  -- `self.pending_orders.pop(ticket)`, and `self.open_positions.pop(ticket)` below
  abbrev pub pop_order : ℕ → Action (BacktestLedger F) (PendingOrder F)
  pop_order ticket l = elim (get ticket l.pending_orders) [
    | none ↦ (raised key_error, l)
    | some order ↦ (ok order, record l { pending_orders = without ticket l.pending_orders })
  ]

  abbrev pub pop_position : ℕ → Action (BacktestLedger F) (OpenPosition F)
  pop_position ticket l = elim (get ticket l.open_positions) [
    | none ↦ (raised key_error, l)
    | some position ↦ (ok position, record l { open_positions = without ticket l.open_positions })
  ]

  unfoldable pub fill_pending_order : ℕ → Time → Action (BacktestLedger F) ℕ
  unfolding add_open_position
  fill_pending_order ticket closed_at = do
    order ← pop_order ticket
    add_open_position (position_of order closed_at) (some ticket)

  unfoldable pub positions_for : Option String → Option ℕ → BacktestLedger F → List (OpenPosition F)
  positions_for symbol magic l =
      keep (λ p. admits symbol magic p.symbol p.magic) (values l.open_positions)

  unfoldable pub orders_for : Option String → Option ℕ → BacktestLedger F → List (PendingOrder F)
  orders_for symbol magic l =
      keep (λ o. admits symbol magic o.symbol o.magic) (values l.pending_orders)

  abbrev pub append_trade : ClosedTrade F → Action (BacktestLedger F) (ClosedTrade F)
  append_trade trade l = (ok trade, record l { closed_trades = l.closed_trades ++ trade ∷ [] })

module _ {F : Type 0} ⦃f : Float F⦄ where
  abbrev pub signed_pnl : OpenPosition F → F → F
  signed_pnl position price_close = elim position.side [
    | buy ↦ price_close ⊖ position.price_open
    | sell ↦ position.price_open ⊖ price_close
  ]

  abbrev pub trade_of : ℕ → OpenPosition F → F → CloseReason → Time → ClosedTrade F
  trade_of ticket position price_close reason closed_at = record {
    ticket = ticket;
    symbol = position.symbol;
    side = position.side;
    volume = position.volume;
    price_open = position.price_open;
    price_close = price_close;
    sl = position.sl;
    tp = position.tp;
    magic = position.magic;
    comment = position.comment;
    opened_at = position.opened_at;
    closed_at = closed_at;
    close_reason = reason;
    r_multiple = signed_pnl position price_close ⊘ f.abs (position.price_open ⊖ position.sl);
    notional_pnl = signed_pnl position price_close ⊗ position.volume;
  }

  abbrev pub finish_close :
      ℕ → F → CloseReason → Time → OpenPosition F → Action (BacktestLedger F) (ClosedTrade F)
  finish_close ticket price_close reason closed_at position = do
    raise_if (f.abs (position.price_open ⊖ position.sl) ⊑ nought) value_error
    append_trade (trade_of ticket position price_close reason closed_at)

  -- The position is gone before its risk is looked at: an error leaves it in neither list.
  unfoldable pub close_position :
      ℕ → F → CloseReason → Time → Action (BacktestLedger F) (ClosedTrade F)
  close_position ticket price_close reason closed_at =
      pop_position ticket >>= finish_close ticket price_close reason closed_at
