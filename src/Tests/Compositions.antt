-- ===== src/Tests/Compositions.antt =====
-- execution/composition.py at a concrete session, which answers each call and remembers the calls of
-- tools that do not only read.
use mt5_mcp_trading_framewor.Common.{
  codes, ◌≡◌, ◌⊎◌, refl, false, true, none, some, List, [], ◌∷◌, any, String, str_eq, if◌then◌else◌,
}
use mt5_mcp_trading_framewor.Common.Int.{pos}
use mt5_mcp_trading_framewor.Common.Outcome.{Outcome, ok}
use mt5_mcp_trading_framewor.Float.Fixed.{Fixed, fixed_float}
use mt5_mcp_trading_framewor.Mcp.{
  ToolRegistry, authorize_call, read_only_tools, build_metatrader_tool_registry,
}
use mt5_mcp_trading_framewor.Mcp.Laws.{listed}
use mt5_mcp_trading_framewor.Mcp.Client.{Session, content, call_tool}
use mt5_mcp_trading_framewor.Adapter.Library.{
  find_field, Json, Fields, object, integer, text, field, empty, float_of,
}
use mt5_mcp_trading_framewor.Domain.{AccountState, demo}
use mt5_mcp_trading_framewor.Adapter.Account.{normal_word, get_account_state}
use mt5_mcp_trading_framewor.Adapter.Account.Mode.{get_account_state-demo}
use mt5_mcp_trading_framewor.Adapter.Composition.{
  open_client, Surroundings, executor_with, demo_execution_session,
}
use mt5_mcp_trading_framewor.Adapter.Composition.Laws.{OuterKeeps, demo_execution_session_refused}
use mt5_mcp_trading_framewor.Adapter.Executor.{McpOrderExecutor}
use mt5_mcp_trading_framewor.Adapter.Executor.Permits.{CanSubmit, CanTouch}
use mt5_mcp_trading_framewor.Adapter.Executor.Submit.{prepare, submit}
use mt5_mcp_trading_framewor.Adapter.Executor.Manage.{cancel, close_position}
use mt5_mcp_trading_framewor.Tests.Desk.{library, market_plan}
use mt5_mcp_trading_framewor.Tests.Sessions.{loaded}

abbrev account_reply : Fields Fixed
account_reply = field "account_type" (text " demo ") (
    field "balance" (integer (pos 1000))
      (field "equity" (integer (pos 1000)) (field "free_margin" (integer (pos 900)) empty)))

abbrev loads : String → Outcome (Json Fixed)
loads s = if str_eq s "account" then ok (object account_reply) else library.json_loads s

abbrev answer : Session (List String) Fixed
answer name arguments calls = (
  content (some (if listed name read_only_tools then "account" else "done") ∷ []),
  if listed name read_only_tools then calls else name ∷ calls,
)

abbrev office : Surroundings (List String) Fixed
office = record {
  session = answer;
  lib = record library { json_loads = loads };
  now = λ calls. (100_000_000_000, calls);
  sleep = λ calls. calls;
  describe = λ e. "closed by its stop";
}

abbrev IsUntraded : List String → Type 0
IsUntraded calls = any (λ name. str_eq name "place_market_order") calls ≡ false

office_keeps : OuterKeeps office IsUntraded
office_keeps = record { tools = λ name arguments reads calls p. rw reads p; time = λ calls p. p }

abbrev trader : McpOrderExecutor (List String) Fixed
unfolding executor_with
trader = executor_with office loaded.mt5_account_kind (build_metatrader_tool_registry true)

demo_execution_session_refused_example :
    (IsUntraded (submit trader market_plan ([], [])).1.0 ⊎ CanSubmit (prepare trader ([], [])).0)
    × (IsUntraded (cancel trader 7 ([], [])).1.0 ⊎ CanTouch 7 (prepare trader ([], [])).0)
    × (IsUntraded (close_position trader 7 none ([], [])).1.0
        ⊎ CanTouch 7 (prepare trader ([], [])).0)
unfolding demo_execution_session call_tool authorize_call build_metatrader_tool_registry float_of
demo_execution_session_refused_example =
    demo_execution_session_refused office IsUntraded office_keeps loaded [] trader refl market_plan
      7 none ([], []) refl

abbrev registry : ToolRegistry
registry = build_metatrader_tool_registry false

abbrev account : AccountState Fixed
account = record {
  balance = pos 1000;
  equity = pos 1000;
  margin_free = pos 900;
  trade_mode = demo;
  login = none;
  server = none;
}

get_account_state-demo_example :
    (raw : String) × (d : Fields Fixed) × (v : Json Fixed) × ((call_tool
        (open_client office registry)
        "get_account_info"
        []
        []).0
      ≡ ok raw)
    × (loads raw ≡ ok (object d))
    × (find_field "account_type" d ≡ some v)
    × (normal_word (library.str v) ≡ codes "DEMO")
unfolding get_account_state call_tool authorize_call build_metatrader_tool_registry float_of
get_account_state-demo_example =
    get_account_state-demo office.lib (open_client office registry) [] {state = account} refl refl
