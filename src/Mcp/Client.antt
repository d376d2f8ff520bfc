-- ===== src/Mcp/Client.antt =====
-- mcp_adapter/client.py: the one place from which a tool is called. The session of the MCP library is a
-- parameter.
pub mod Laws
use mt5_mcp_trading_framewor.Common.{Option, none, some, List, [], ◌∷◌, String}
use mt5_mcp_trading_framewor.Common.Int.{ℤ}
use mt5_mcp_trading_framewor.Common.Outcome.{
  Error, Outcome, ok, raised, runtime_error, call_timed_out,
}
use mt5_mcp_trading_framewor.Common.Action.{Action, ◌>>=◌, ◌>>◌, pure, raise, lift}
use mt5_mcp_trading_framewor.Mcp.{ToolRegistry, authorize_call}
use Prim.Native.String.{◌++◌}

-- the values that the callers put into `arguments`
pub data Argument (F : Type 0) : Type 0 where
  text : String → Argument F
  number : F → Argument F
  integer : ℤ → Argument F
  null : Argument F

abbrev pub Arguments : Type 0 → Type 0
Arguments F = List (String × Argument F)

-- what a call of the session ends in: the content blocks, with their text where they have one, or the
-- end of the time that `wait_for` allows, or another exception
pub data Reply : Type 0 where
  content : List (Option String) → Reply
  timed_out : Reply
  failed : Error → Reply

-- `ClientSession.call_tool` under `asyncio.wait_for`
abbrev pub Session : Type 0 → Type 0 → Type 0
Session W F = String → Arguments F → W → Reply × W

pub record McpClient (W F : Type 0) : Type 0 where
  pub registry : ToolRegistry
  -- `None` outside of `async with`
  pub session : Option (Session W F)

-- `[c.text for c in result.content if hasattr(c, "text")]`
abbrev text_parts : List (Option String) → List String
text_parts [] = []
text_parts (none ∷ blocks) = text_parts blocks
text_parts (some t ∷ blocks) = t ∷ text_parts blocks

abbrev join_after : String → List String → String
join_after t [] = t
join_after t (u ∷ us) = t ++ ("\n" ++ join_after u us)

-- `"\n".join(parts)`
abbrev join_lines : List String → String
join_lines [] = ""
join_lines (t ∷ ts) = join_after t ts

abbrev response_of : Reply → Outcome String
response_of (content blocks) = ok (join_lines (text_parts blocks))
response_of timed_out = raised call_timed_out
response_of (failed e) = raised e

module _ {W F : Type 0} where
  abbrev pub ask : Session W F → String → Arguments F → Action W String
  ask session name arguments w =
      let (reply, w') = session name arguments w in (response_of reply, w')

  abbrev call_in : ToolRegistry → Option (Session W F) → String → Arguments F → Action W String
  call_in registry none name arguments = raise runtime_error
  call_in registry (some session) name arguments =
      lift (authorize_call name registry) >> ask session name arguments

  unfoldable pub call_tool : McpClient W F → String → Arguments F → Action W String
  call_tool client name arguments = call_in client.registry client.session name arguments
