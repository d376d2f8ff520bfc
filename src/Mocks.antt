-- ===== src/Mocks.antt =====
-- mocks/: the adapters of the tests, which read what they were given and record what they are asked.
pub mod DryRun
use mt5_mcp_trading_framewor.Common.{
  ℕ, zero, Bool, true, false, ◌&&◌, Option, none, some, List, [], ◌∷◌, ◌++◌, String, str_eq, ◌==◌,
  if◌then◌else◌, keep, last_slice,
}
use mt5_mcp_trading_framewor.Common.Int.{pos}
use mt5_mcp_trading_framewor.Common.Outcome.{Outcome, ok, raised, key_error}
use mt5_mcp_trading_framewor.Common.Action.{Action}
use mt5_mcp_trading_framewor.Domain.{
  AccountState, PositionState, OrderState, OrderPlan, ExecutionResult, MarketBar, Tick, SymbolInfo,
}
use mt5_mcp_trading_framewor.Pipeline.Interfaces.{MarketDataSource, AccountReader, OrderExecutor}

pub record MockAccountReader (F : Type 0) : Type 0 where
  pub account_state : AccountState F
  pub positions : List (PositionState F)
  pub orders : List (OrderState F)

-- a filter of `None` admits everything
abbrev pub is_symbol : Option String → String → Bool
is_symbol none symbol = true
is_symbol (some s) symbol = str_eq symbol s

abbrev pub is_magic : Option ℕ → ℕ → Bool
is_magic none magic = true
is_magic (some m) magic = magic == m

pub record MockMarketDataSource (F : Type 0) : Type 0 where
  pub bars : List (String × List (MarketBar F))
  pub ticks : List (String × Tick F)
  pub symbol_infos : List (String × SymbolInfo F)

abbrev find : {A : Type 0} → String → List (String × A) → Option A
find symbol [] = none
find symbol ((s, a) ∷ rest) = if str_eq s symbol then some a else find symbol rest

abbrev or_key_error : {A : Type 0} → Option A → Outcome A
or_key_error none = raised key_error
or_key_error (some a) = ok a

abbrev or_empty : {A : Type 0} → Option (List A) → List A
or_empty none = []
or_empty (some xs) = xs

-- `bars[-count:] if count > 0 else []`
abbrev last_bars : {A : Type 0} → ℕ → List A → List A
last_bars zero xs = []
last_bars n xs = last_slice n xs

pub record MockOrderExecutor (F : Type 0) : Type 0 where
  pub submitted : List (OrderPlan F)
  pub cancelled : List ℕ
  pub closed : List (ℕ × Option F)

module _ {S F : Type 0} where
  unfoldable pub mock_account : MockAccountReader F → AccountReader S F
  mock_account reader = record {
    get_positions = λ symbol magic s.
        (ok (keep (λ p. is_symbol symbol p.symbol && is_magic magic p.magic) reader.positions), s);
    get_orders = λ symbol magic s.
        (ok (keep (λ o. is_symbol symbol o.symbol && is_magic magic o.magic) reader.orders), s);
  }

  unfoldable pub mock_market : MockMarketDataSource F → MarketDataSource S F
  mock_market source = record {
    get_bars =
        λ symbol timeframe count s. (ok (last_bars count (or_empty (find symbol source.bars))), s);
    get_tick = λ symbol s. (or_key_error (find symbol source.ticks), s);
    get_symbol_info = λ symbol s. (or_key_error (find symbol source.symbol_infos), s);
  }

module _ {F : Type 0} where
  abbrev pub mock_result : Option (OrderPlan F) → ℕ → String → ExecutionResult F
  mock_result plan ticket comment = record {
    order_plan = plan;
    success = true;
    retcode = pos 0;
    ticket = some ticket;
    deal = none;
    executed_price = none;
    executed_volume = none;
    broker_comment = comment;
    verified = true;
  }

  -- `MockOrderExecutor`, whose state is what it has recorded
  unfoldable pub mock_executor : OrderExecutor (MockOrderExecutor F) F
  mock_executor = record {
    submit = λ plan m. (
      ok (mock_result (some plan) 1 "mock"),
      record m { submitted = m.submitted ++ (plan ∷ []) },
    );
    cancel = λ ticket m. (
      ok (mock_result none ticket "mock cancel"),
      record m { cancelled = m.cancelled ++ (ticket ∷ []) },
    );
    close_position = λ ticket volume m. (
      ok (mock_result none ticket "mock close"),
      record m { closed = m.closed ++ ((ticket, volume) ∷ []) },
    );
  }
