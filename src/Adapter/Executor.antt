-- ===== src/Adapter/Executor.antt =====
-- mt5_adapter/mcp_order_executor.py, over the reads of the account, the client, the clock and the state
-- store. The state is what lies outside (`W`) and the store's directory.
pub mod Posture
pub mod Permits
pub mod Placing
pub mod Submit
pub mod Manage
pub mod Confirmed
pub mod Market
pub mod Submitted
pub mod Refusals
pub mod Reads
pub mod Endings
pub mod Explained
use mt5_mcp_trading_framewor.Common.{ℕ, Option, List, String}
use mt5_mcp_trading_framewor.Common.Outcome.{ok}
use mt5_mcp_trading_framewor.Common.Action.{Action, on_left, on_right}
use mt5_mcp_trading_framewor.Domain.{AccountState, Time}
use mt5_mcp_trading_framewor.State.Store.{Directory}
use mt5_mcp_trading_framewor.State.SlTpArtifact.{SlTpArtifactEvidence}
use mt5_mcp_trading_framewor.Pipeline.Interfaces.{AccountReader}
use mt5_mcp_trading_framewor.Mcp.Client.{McpClient}
use mt5_mcp_trading_framewor.Adapter.Library.{Library}

-- the constructor's arguments but the store, with the clock and the waiting that it imports
pub record McpOrderExecutor (W F : Type 0) : Type 0 where
  pub client : McpClient W F
  pub account : AccountReader W F
  -- `account.get_account_state`
  pub get_account_state : Action W (AccountState F)
  pub mt5_account_kind : Option String
  pub lib : Library F
  -- `datetime.now(timezone.utc)` and `asyncio.sleep(0.5)`
  pub now : W → Time × W
  pub sleep : W → W
  -- the text of the reason for which a position with this evidence is closed
  pub describe : SlTpArtifactEvidence F → String

module _ {W F : Type 0} (self : McpOrderExecutor W F) where
  abbrev pub clock : Action W Time
  clock w = let (t, w') = self.now w in (ok t, w')

  abbrev pub wait : Action W (Unit {0})
  wait w = (ok tt, self.sleep w)

abbrev pub Machine : Type 0 → Type 0 → Type 0
Machine W F = W × Directory F

-- a call of an adapter, and a call of the state store
abbrev pub outside : {W F A : Type 0} → Action W A → Action (Machine W F) A
outside m = on_left m

abbrev pub in_store : {W F A : Type 0} → Action (Directory F) A → Action (Machine W F) A
in_store m = on_right m
