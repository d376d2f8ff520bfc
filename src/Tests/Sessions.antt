-- ===== src/Tests/Sessions.antt =====
-- config/settings.py and the gates of a trading session at a concrete environment.
use mt5_mcp_trading_framewor.Common.{
  ◌≡◌, refl, true, Option, none, some, String, str_eq, if◌then◌else◌,
}
use mt5_mcp_trading_framewor.Common.Int.{ℤ, pos}
use mt5_mcp_trading_framewor.Mcp.{build_metatrader_tool_registry}
use mt5_mcp_trading_framewor.Config.{
  Settings, demo_execution, read_only_mode, load_settings, session_registry, trading_enabled,
  require_demo_account_kind,
}
use mt5_mcp_trading_framewor.Config.Laws.{session_registry_gates}

abbrev environment : String → Option String
environment name =
    if str_eq name "MT5_MCP_MODE"
    then some "READ_ONLY"
    else if str_eq name "MT5_ACCOUNT_KIND"
    then some "DEMO"
    else if str_eq name "MT5_DEMO_LOGIN"
    then some "42"
    else none

-- a parser that knows one numeral
abbrev parse_int : String → Option ℤ
parse_int s = if str_eq s "42" then some (pos 42) else none

abbrev pub loaded : Settings
loaded = record {
  mode = demo_execution;
  mt5_demo_login = some (pos 42);
  mt5_demo_password = none;
  mt5_demo_server = none;
  mt5_account_kind = some "DEMO";
  mcp_server_command = none;
  log_level = "INFO";
}

session_registry_gates_example :
    (demo_execution ≡ demo_execution)
    × (environment "MT5_ACCOUNT_KIND" ≡ some "DEMO")
    × (build_metatrader_tool_registry true ≡ build_metatrader_tool_registry true)
unfolding load_settings session_registry trading_enabled require_demo_account_kind
session_registry_gates_example =
    session_registry_gates parse_int environment {s = record loaded { mode = read_only_mode }}
      demo_execution {r = build_metatrader_tool_registry true} refl refl
