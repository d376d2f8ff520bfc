-- ===== src/Config.antt =====
-- config/settings.py, the gates of mt5_adapter/safety.py and execution/composition.py: what has to be
-- set before anything that can trade exists.
pub mod Laws
use mt5_mcp_trading_framewor.Common.{
  Bool, true, false, not, Option, none, some, String, str_eq, if◌then◌else◌,
}
use mt5_mcp_trading_framewor.Common.Int.{ℤ}
use mt5_mcp_trading_framewor.Common.Outcome.{
  Outcome, ok, raised, settings_error, runtime_error, not_demo_account, ◌>>=◌, ◌>>◌, raise_if,
}
use mt5_mcp_trading_framewor.Mcp.{ToolRegistry, build_metatrader_tool_registry}

pub data ExecutionMode : Type 0 where
  read_only_mode mock dry_run shadow demo_execution : ExecutionMode

-- `ExecutionMode(mode_raw)`
abbrev pub mode_of : String → Outcome ExecutionMode
mode_of s =
    if str_eq s "READ_ONLY"
    then ok read_only_mode
    else if str_eq s "MOCK"
    then ok mock
    else if str_eq s "DRY_RUN"
    then ok dry_run
    else if str_eq s "SHADOW"
    then ok shadow
    else if str_eq s "DEMO_EXECUTION"
    then ok demo_execution
    else raised settings_error

pub record Settings : Type 0 where
  pub mode : ExecutionMode
  pub mt5_demo_login : Option ℤ
  pub mt5_demo_password : Option String
  pub mt5_demo_server : Option String
  pub mt5_account_kind : Option String
  pub mcp_server_command : Option String
  pub log_level : String

unfoldable pub trading_enabled : Settings → Bool
trading_enabled s = elim s.mode [ demo_execution ↦ true | _ ↦ false ]

-- `source.get(name, default)`, and `source.get(name) or None` below
abbrev pub or_default : Option String → String → String
or_default none default = default
or_default (some s) default = s

abbrev pub or_none : Option String → Option String
or_none none = none
or_none (some s) = if str_eq s "" then none else some s

-- `int(login_raw)`, of which the argument is the builtin's parser
abbrev pub parsed_login : Option ℤ → Outcome (Option ℤ)
parsed_login none = raised settings_error
parsed_login (some n) = ok (some n)

abbrev pub login_of : (String → Option ℤ) → Option String → Outcome (Option ℤ)
login_of parse_int none = ok none
login_of parse_int (some s) = parsed_login (parse_int s)

-- Of an environment, the values of its variables.
unfoldable pub load_settings : (String → Option ℤ) → (String → Option String) → Outcome Settings
load_settings parse_int source = do
  mode ← mode_of (or_default (source "MT5_MCP_MODE") "MOCK")
  login ← login_of parse_int (or_none (source "MT5_DEMO_LOGIN"))
  ok (record {
    mode = mode;
    mt5_demo_login = login;
    mt5_demo_password = or_none (source "MT5_DEMO_PASSWORD");
    mt5_demo_server = or_none (source "MT5_DEMO_SERVER");
    mt5_account_kind = or_none (source "MT5_ACCOUNT_KIND");
    mcp_server_command = or_none (source "MCP_SERVER_COMMAND");
    log_level = or_default (source "LOG_LEVEL") "INFO";
  })

unfoldable pub require_demo_account_kind : Option String → Outcome (Unit {0})
require_demo_account_kind none = raised not_demo_account
require_demo_account_kind (some kind) = raise_if (not (str_eq kind "DEMO")) not_demo_account

abbrev is_demo_execution : ExecutionMode → Bool
is_demo_execution demo_execution = true
is_demo_execution _ = false

-- The part of `demo_execution_session` before it starts the client: the registry that the client gets.
unfoldable pub session_registry : Settings → Outcome ToolRegistry
unfolding trading_enabled require_demo_account_kind
session_registry settings = do
  raise_if (not (is_demo_execution settings.mode)) runtime_error
  raise_if (not (trading_enabled settings)) runtime_error
  require_demo_account_kind settings.mt5_account_kind
  ok (build_metatrader_tool_registry true)
