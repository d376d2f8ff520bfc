-- ===== src/Pipeline/Interfaces.antt =====
-- market_data/interfaces.py and mt5_adapter/interfaces.py: what a cycle reads and does, over a state of
-- the surroundings of which it knows nothing.
use mt5_mcp_trading_framewor.Common.{ℕ, Option, List, String, ◌==◌, keep, map, none, some}
use mt5_mcp_trading_framewor.Common.Action.{Action, ◌>>=◌, pure}
use mt5_mcp_trading_framewor.Domain.{
  MarketBar, Tick, SymbolInfo, PositionState, OrderState, OrderPlan, ExecutionResult,
}
use mt5_mcp_trading_framewor.State.Models.{LocalOrderRecord}
use mt5_mcp_trading_framewor.State.Reconcile.{mem}

pub record MarketDataSource (S F : Type 0) : Type 0 where
  pub get_bars : String → String → ℕ → Action S (List (MarketBar F))
  pub get_tick : String → Action S (Tick F)
  pub get_symbol_info : String → Action S (SymbolInfo F)

-- `symbol` and `magic` are the filters
-- `get_account_state` and `get_connection_state`, which no cycle calls, are left out.
pub record AccountReader (S F : Type 0) : Type 0 where
  pub get_positions : Option String → Option ℕ → Action S (List (PositionState F))
  pub get_orders : Option String → Option ℕ → Action S (List (OrderState F))

pub record OrderExecutor (S F : Type 0) : Type 0 where
  pub submit : OrderPlan F → Action S (ExecutionResult F)
  pub cancel : ℕ → Action S (ExecutionResult F)
  pub close_position : ℕ → Option F → Action S (ExecutionResult F)

-- the tickets of the open records of this magic
abbrev pub tickets_of : {F : Type 0} → ℕ → List (LocalOrderRecord F) → List ℕ
tickets_of magic records = map (λ r. r.ticket) (keep (λ r. r.magic == magic) records)

module _ {S F : Type 0} where
  -- The positions and pending orders of a cycle: filtered by the account, or, with a state store (here
  -- its `all_open`), attributed by the recorded tickets.
  unfoldable pub read_exposure :
      AccountReader S F
      → Option (Action S (List (LocalOrderRecord F)))
      → String
      → ℕ
      → Action S (List (PositionState F) × List (OrderState F))
  read_exposure account none symbol magic = do
    positions ← account.get_positions (some symbol) (some magic)
    pending_orders ← account.get_orders (some symbol) (some magic)
    pure (positions, pending_orders)
  read_exposure account (some all_open) symbol magic = do
    records ← all_open
    all_positions ← account.get_positions (some symbol) none
    all_orders ← account.get_orders (some symbol) none
    let local_tickets = tickets_of magic records
    pure (
      keep (λ p. mem p.ticket local_tickets) all_positions,
      keep (λ o. mem o.ticket local_tickets) all_orders,
    )
