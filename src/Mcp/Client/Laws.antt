-- ===== src/Mcp/Client/Laws.antt =====
-- Proofs about mcp_adapter/client.py: calls that do not reach the server.
use mt5_mcp_trading_framewor.Common.{
  ◌≡◌, refl, ◌∙◌, Bool, true, false, Option, none, some, String, if◌then◌else◌,
}
use mt5_mcp_trading_framewor.Common.Outcome.{
  Error, ok, raised, trading_disabled, tool_not_classified,
}
use mt5_mcp_trading_framewor.Common.Action.{lift, Preserves, >>=-Preserves, lift-Preserves}
use mt5_mcp_trading_framewor.Mcp.{
  ToolRegistry, authorize_call, build_metatrader_tool_registry, trading_tools, read_only_tools,
}
use mt5_mcp_trading_framewor.Mcp.Laws.{listed, authorize_call_lem}
use mt5_mcp_trading_framewor.Mcp.Client.{McpClient, Arguments, Session, call_tool, call_in, ask}

abbrev pub is_allowed : String → Bool → Bool
is_allowed name enabled = if listed name trading_tools then enabled else listed name read_only_tools

refusal_of :
    (is_trading is_reading enabled : Bool)
    → (if is_trading then enabled else is_reading) ≡ false
    → (e : Error) × ((if is_trading
          then (if enabled then ok tt else raised trading_disabled)
          else if is_reading
          then ok tt
          else raised tool_not_classified)
        ≡ raised e)
refusal_of true r true h = cc
refusal_of true r false h = (trading_disabled, refl)
refusal_of false true enabled h = cc
refusal_of false false enabled h = (tool_not_classified, refl)

not_allowed :
    (name : String) (enabled : Bool)
    → is_allowed name enabled ≡ false
    → (e : Error) × (authorize_call name (build_metatrader_tool_registry enabled) ≡ raised e)
not_allowed name enabled h =
    let (e, refused) =
      refusal_of (listed name trading_tools) (listed name read_only_tools) enabled h in
    (e, authorize_call_lem name enabled ∙ refused)

module _ {W F : Type 0} where
  call_in_refused :
      (registry : ToolRegistry) (session : Option (Session W F)) (name : String)
      (arguments : Arguments F) (w : W) {e : Error}
      → authorize_call name registry ≡ raised e
      → (e' : Error) × (call_in registry session name arguments w ≡ (raised e', w))
  call_in_refused registry none name arguments w h = (_, refl)
  call_in_refused registry (some session) name arguments w {e} h = (e, rw h refl)

  -- With the registry of the MetaTrader server, a call of a trading tool while trading is not enabled,
  -- or of a tool that the registry does not know, raises and reaches nothing outside.
  pub call_tool_refused :
      (client : McpClient W F) (name : String) (arguments : Arguments F) (enabled : Bool) (w : W)
      → client.registry ≡ build_metatrader_tool_registry enabled
      → is_allowed name enabled ≡ false
      → (e : Error) × (call_tool client name arguments w ≡ (raised e, w))
  unfolding call_tool
  call_tool_refused client name arguments enabled w same h =
      let (e, refused) = not_allowed name enabled h in
      call_in_refused client.registry client.session name arguments w {e = e} (rw same refused)

module _ {W F : Type 0} (P : W → Type 0) (session : Session W F) where
  -- a tool whose answer keeps `P` of the outside keeps it when it is called, authorized or not
  pub call_tool-Preserves :
      (registry : ToolRegistry) (name : String) (arguments : Arguments F)
      → ((w : W) → P w → P (session name arguments w).1)
      → Preserves P
          (call_tool (record { registry = registry; session = some session }) name arguments)
  unfolding call_tool
  call_tool-Preserves registry name arguments h =
      >>=-Preserves P (lift (authorize_call name registry)) (λ _. ask session name arguments)
        (lift-Preserves P (authorize_call name registry)) (λ _. h)
