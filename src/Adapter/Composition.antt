-- ===== src/Adapter/Composition.antt =====
-- execution/composition.py: a session for trading, from its gates to the executor. The session of the
-- MCP library, the clock and the readers of texts are parameters; the state store is the other half of
-- the executor's state.
pub mod Laws
use mt5_mcp_trading_framewor.Common.{Option, some, String}
use mt5_mcp_trading_framewor.Common.Action.{Action, ◌>>=◌, ◌>>◌, pure, lift, attempt}
use mt5_mcp_trading_framewor.Float.{Float}
use mt5_mcp_trading_framewor.Domain.{Time}
use mt5_mcp_trading_framewor.Config.{Settings, session_registry}
use mt5_mcp_trading_framewor.State.SlTpArtifact.{SlTpArtifactEvidence}
use mt5_mcp_trading_framewor.Mcp.{ToolRegistry}
use mt5_mcp_trading_framewor.Mcp.Client.{Session, McpClient}
use mt5_mcp_trading_framewor.Adapter.Library.{Library}
use mt5_mcp_trading_framewor.Adapter.Account.{mcp_account_reader, get_account_state}
use mt5_mcp_trading_framewor.Adapter.Executor.{McpOrderExecutor}
use mt5_mcp_trading_framewor.Adapter.Executor.Posture.{require_demo_account, informational}

-- what the session of a program runs on
pub record Surroundings (W F : Type 0) : Type 0 where
  pub session : Session W F
  pub lib : Library F
  pub now : W → Time × W
  pub sleep : W → W
  pub describe : SlTpArtifactEvidence F → String

module _ {W F : Type 0} (outer : Surroundings W F) where
  -- the client inside of `async with`
  abbrev pub open_client : ToolRegistry → McpClient W F
  open_client registry = record { registry = registry; session = some outer.session }

  unfoldable pub executor_with : Option String → ToolRegistry → McpOrderExecutor W F
  unfolding mcp_account_reader get_account_state
  executor_with mt5_account_kind registry = record {
    client = open_client registry;
    account = mcp_account_reader outer.lib (open_client registry);
    get_account_state = get_account_state outer.lib (open_client registry);
    mt5_account_kind = mt5_account_kind;
    lib = outer.lib;
    now = outer.now;
    sleep = outer.sleep;
    describe = outer.describe;
  }

module _ {W F : Type 0} ⦃f : Float F⦄ (outer : Surroundings W F) where
  -- the check of the account over the client, which only warns, and the executor
  abbrev pub checked : McpOrderExecutor W F → Action W (McpOrderExecutor W F)
  unfolding require_demo_account
  checked executor =
      (attempt (require_demo_account executor) >>= informational executor) >> pure executor

  unfoldable pub demo_execution_session : Settings → Action W (McpOrderExecutor W F)
  unfolding session_registry executor_with require_demo_account
  demo_execution_session settings = lift (session_registry settings) >>= λ registry.
      checked (executor_with outer settings.mt5_account_kind registry)
