-- ===== src/Adapter/Account.antt =====
-- mt5_adapter/mcp_account.py: the account, its positions and its orders, read over the client. `strip`,
-- `upper` and `startswith` are those of ASCII text.
pub mod Laws
pub mod Mode
use mt5_mcp_trading_framewor.Common.{
  ℕ, ◌-◌, Bool, true, false, ◌&&◌, Option, none, some, List, [], ◌∷◌, String, Text, codes, text_eq,
  map, strip, keep, if◌then◌else◌, leb, ◌==◌,
}
use mt5_mcp_trading_framewor.Common.Outcome.{Outcome, Error, ok, raised, ◌>>=◌}
use mt5_mcp_trading_framewor.Common.Action as Action
use mt5_mcp_trading_framewor.Common.Action.{Action, lift, attempt, pure}
use mt5_mcp_trading_framewor.Domain.{
  TradeMode, demo, contest, real, AccountState, PositionState, OrderState, Side, buy, sell,
}
use mt5_mcp_trading_framewor.Pipeline.Interfaces.{AccountReader}
use mt5_mcp_trading_framewor.Mcp.Client.{McpClient, call_tool}
use mt5_mcp_trading_framewor.Adapter.Library.{
  Library, Json, Fields, Row, find_field, dict_of, item_found, float_of,
}
use mt5_mcp_trading_framewor.Adapter.Deals.{
  argument, cell, float_cell, int_cell, each_row, parse_dataframe_csv,
}

-- the two texts of `detail`
pub data ConnectionDetail : Type 0 where
  inferred : ConnectionDetail
  call_failed : Error → ConnectionDetail

pub record ConnectionState : Type 0 where
  pub connected : Bool
  pub detail : ConnectionDetail

abbrev to_upper : ℕ → ℕ
to_upper c = if leb b'a' c && leb c b'z' then c - 32 else c

-- `text.strip().upper()`
abbrev pub normal_word : String → Text
normal_word t = map to_upper (strip (codes t))

abbrev starts_with : Text → Text → Bool
starts_with [] t = true
starts_with (c ∷ s) [] = false
starts_with (c ∷ s) (d ∷ t) = (c == d) && starts_with s t

unfoldable pub side_from_type : String → Side
side_from_type raw_type = if starts_with (codes "BUY") (normal_word raw_type) then buy else sell

-- a reported mode that is not one of the three counts as REAL
unfoldable pub mode_of_word : Text → TradeMode
mode_of_word word =
    if text_eq word (codes "DEMO")
    then demo
    else if text_eq word (codes "CONTEST")
    then contest
    else real

module _ {F : Type 0} (lib : Library F) where
  -- `str(data.get("account_type", "")).strip().upper()`
  abbrev pub reported_word : Option (Json F) → Text
  reported_word none = []
  reported_word (some v) = normal_word (lib.str v)

  -- `float(data[name])`
  abbrev pub float_field : String → Fields F → Outcome F
  float_field name d = item_found (find_field name d) >>= float_of lib

  unfoldable pub account_of_fields : Fields F → Outcome (AccountState F)
  unfolding mode_of_word
  account_of_fields d = do
    balance ← float_field "balance" d
    equity ← float_field "equity" d
    margin_free ← float_field "free_margin" d
    ok (record {
      balance = balance;
      equity = equity;
      margin_free = margin_free;
      trade_mode = mode_of_word (reported_word (find_field "account_type" d));
      login = none;
      server = none;
    })

  unfoldable pub read_account : String → Outcome (AccountState F)
  unfolding account_of_fields
  read_account raw = lib.json_loads raw >>= dict_of >>= account_of_fields

  unfoldable pub position_of_row : Row → Outcome (PositionState F)
  unfolding side_from_type
  position_of_row row = do
    ticket ← int_cell lib "id" row
    symbol ← cell lib "symbol" row
    side ← cell lib "type" row
    volume ← float_cell lib "volume" row
    price_open ← float_cell lib "open" row
    profit ← float_cell lib "profit" row
    magic ← int_cell lib "magic" row
    sl ← float_cell lib "stop_loss" row
    tp ← float_cell lib "take_profit" row
    ok (record {
      ticket = ticket;
      symbol = symbol;
      side = side_from_type side;
      volume = volume;
      price_open = price_open;
      profit = profit;
      magic = magic;
      sl = sl;
      tp = tp;
    })

  unfoldable pub order_of_row : Row → Outcome (OrderState F)
  unfolding side_from_type
  order_of_row row = do
    ticket ← int_cell lib "id" row
    symbol ← cell lib "symbol" row
    side ← cell lib "type" row
    volume ← float_cell lib "volume" row
    price ← float_cell lib "open" row
    magic ← int_cell lib "magic" row
    ok (record {
      ticket = ticket;
      symbol = symbol;
      side = side_from_type side;
      volume = volume;
      price = price;
      magic = magic;
    })

  -- `if magic is not None`
  abbrev pub of_magic : {A : Type 0} → (A → ℕ) → Option ℕ → List A → List A
  of_magic magic_of none xs = xs
  of_magic magic_of (some magic) xs = keep (λ x. magic_of x == magic) xs

  -- the rows of a table, and of these the ones of the magic number
  abbrev pub read_table :
      {A : Type 0} → (Row → Outcome A) → (A → ℕ) → Option ℕ → String → Outcome (List A)
  unfolding parse_dataframe_csv
  read_table read magic_of magic raw =
      parse_dataframe_csv lib raw >>= each_row lib read >>= λ xs. ok (of_magic magic_of magic xs)

  module _ {W : Type 0} (client : McpClient W F) where
    unfoldable pub get_account_state : Action W (AccountState F)
    unfolding read_account
    get_account_state =
        Action.◌>>=◌ (call_tool client "get_account_info" []) (λ raw. lift (read_account raw))

    unfoldable pub get_positions : Option String → Option ℕ → Action W (List (PositionState F))
    unfolding position_of_row parse_dataframe_csv
    get_positions symbol magic =
        Action.◌>>=◌
          (call_tool client "get_positions_with_magic" (argument lib "symbol_name" symbol))
          (λ raw. lift (read_table position_of_row (λ p. p.magic) magic raw))

    unfoldable pub get_orders : Option String → Option ℕ → Action W (List (OrderState F))
    unfolding order_of_row parse_dataframe_csv
    get_orders symbol magic =
        Action.◌>>=◌
          (call_tool client "get_pending_orders_with_magic" (argument lib "symbol_name" symbol))
          (λ raw. lift (read_table order_of_row (λ o. o.magic) magic raw))

    abbrev connection_of : Outcome String → ConnectionState
    connection_of (ok raw) = record { connected = true; detail = inferred }
    connection_of (raised e) = record { connected = false; detail = call_failed e }

    unfoldable pub get_connection_state : Action W ConnectionState
    get_connection_state =
        Action.◌>>=◌ (attempt (call_tool client "get_account_info" []))
          (λ reply. pure (connection_of reply))

    -- the reader that the executor and the cycles are given
    unfoldable pub mcp_account_reader : AccountReader W F
    unfolding get_positions get_orders
    mcp_account_reader = record { get_positions = get_positions; get_orders = get_orders }
