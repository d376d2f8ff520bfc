-- ===== src/Adapter/Account/Laws.antt =====
-- Proofs about mt5_adapter/mcp_account.py.
use mt5_mcp_trading_framewor.Common.{ℕ, ◌≡◌, refl, true, Option, some, [], String}
use mt5_mcp_trading_framewor.Common.Action.{◌>>=◌, lift, Preserves, >>=-Preserves, lift-Preserves}
use mt5_mcp_trading_framewor.Common.Outcome.{Outcome}
use mt5_mcp_trading_framewor.Mcp.{ToolRegistry, read_only_tools}
use mt5_mcp_trading_framewor.Mcp.Laws.{listed}
use mt5_mcp_trading_framewor.Mcp.Client.{Session, McpClient, Arguments, call_tool}
use mt5_mcp_trading_framewor.Mcp.Client.Laws.{call_tool-Preserves}
use mt5_mcp_trading_framewor.Adapter.Library.{Library}
use mt5_mcp_trading_framewor.Adapter.Deals.{argument}
use mt5_mcp_trading_framewor.Adapter.Account.{
  get_account_state, get_positions, get_orders, read_account, read_table, position_of_row,
  order_of_row,
}

module _ {W F : Type 0} (P : W → Type 0) (lib : Library F) (registry : ToolRegistry)
    (session : Session W F) where
  abbrev pub client : McpClient W F
  client = record { registry = registry; session = some session }

  read_reply-Preserves :
      {A : Type 0} (name : String) (arguments : Arguments F) (read : String → Outcome A)
      → ((w : W) → P w → P (session name arguments w).1)
      → Preserves P (call_tool client name arguments >>= λ raw. lift (read raw))
  read_reply-Preserves name arguments read h =
      >>=-Preserves P (call_tool client name arguments) (λ raw. lift (read raw))
        (call_tool-Preserves P session registry name arguments h)
        (λ raw. lift-Preserves P (read raw))

  -- what the server's documentation says of the tools that are registered as READ_ONLY
  module _
      (keeps : (name : String) (arguments : Arguments F)
        → listed name read_only_tools ≡ true
        → (w : W) → P w
        → P (session name arguments w).1) where
    pub get_account_state-Preserves : Preserves P (get_account_state lib client)
    unfolding get_account_state
    get_account_state-Preserves =
        read_reply-Preserves "get_account_info" [] (read_account lib)
          (keeps "get_account_info" [] refl)

    pub get_positions-Preserves :
        (symbol : Option String) (magic : Option ℕ)
        → Preserves P (get_positions lib client symbol magic)
    unfolding get_positions
    get_positions-Preserves symbol magic =
        read_reply-Preserves "get_positions_with_magic" (argument lib "symbol_name" symbol)
          (read_table lib (position_of_row lib) (λ p. p.magic) magic)
          (keeps "get_positions_with_magic" (argument lib "symbol_name" symbol) refl)

    pub get_orders-Preserves :
        (symbol : Option String) (magic : Option ℕ)
        → Preserves P (get_orders lib client symbol magic)
    unfolding get_orders
    get_orders-Preserves symbol magic =
        read_reply-Preserves "get_pending_orders_with_magic" (argument lib "symbol_name" symbol)
          (read_table lib (order_of_row lib) (λ o. o.magic) magic)
          (keeps "get_pending_orders_with_magic" (argument lib "symbol_name" symbol) refl)
