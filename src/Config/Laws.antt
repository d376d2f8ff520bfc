-- ===== src/Config/Laws.antt =====
-- Proofs about config/settings.py and the gates of a session.
use mt5_mcp_trading_framewor.Common.{
  true, ◌≡◌, Option, none, some, String, eq_iff, arith, inl, inr, Option-cases, sym, ◌∙◌,
}
use mt5_mcp_trading_framewor.Common.Int.{ℤ}
use mt5_mcp_trading_framewor.Common.Outcome.{ok, >>=-eq-ok}
use mt5_mcp_trading_framewor.Mcp.{ToolRegistry, build_metatrader_tool_registry}
use mt5_mcp_trading_framewor.Config.{
  demo_execution, ExecutionMode, mode_of, Settings, trading_enabled, or_default, or_none, login_of,
  load_settings, require_demo_account_kind, session_registry,
}

or_none-eq-some : (o : Option String) {s : String} → or_none o ≡ some s → o ≡ some s
or_none-eq-some none e = cc
or_none-eq-some (some t) e = ground (arith, e)

-- what a loaded account kind was read from
loaded_kind :
    (parse_int : String → Option ℤ) (source : String → Option String) {s : Settings}
    → load_settings parse_int source ≡ ok s
    → s.mt5_account_kind ≡ or_none (source "MT5_ACCOUNT_KIND")
unfolding load_settings
loaded_kind parse_int source {s} e =
    let (mode, em, e₂) =
      >>=-eq-ok (mode_of (or_default (source "MT5_MCP_MODE") "MOCK")) _ {result = s} e in
    let (login, _, e₃) =
      >>=-eq-ok (login_of parse_int (or_none (source "MT5_DEMO_LOGIN"))) _ {result = s} e₂ in
    cc

session_gates :
    (s : Settings) {r : ToolRegistry}
    → session_registry s ≡ ok r
    → (s.mode ≡ demo_execution)
      × (s.mt5_account_kind ≡ some "DEMO")
      × (r ≡ build_metatrader_tool_registry true)
unfolding session_registry trading_enabled require_demo_account_kind
session_gates s {r} e = elim (Option-cases s.mt5_account_kind) [
  | inl missing ↦ absurd (ground (arith, e, missing))
  | inr (kind, set) ↦ ground (arith, e, set, eq_iff kind "DEMO")
]

-- Of loaded settings whose mode a program may have replaced, a trading session makes its registry only
-- if the mode is DEMO_EXECUTION by then and MT5_ACCOUNT_KIND, which no mode replaces, was spelled
-- exactly DEMO in the environment; and the registry is then the MetaTrader server's, with trading
-- enabled.
pub session_registry_gates :
    (parse_int : String → Option ℤ) (source : String → Option String) {s : Settings}
    (mode : ExecutionMode) {r : ToolRegistry}
    → load_settings parse_int source ≡ ok s
    → session_registry (record s { mode = mode }) ≡ ok r
    → (mode ≡ demo_execution)
      × (source "MT5_ACCOUNT_KIND" ≡ some "DEMO")
      × (r ≡ build_metatrader_tool_registry true)
session_registry_gates parse_int source {s} mode {r} e₁ e₂ =
    let from_kind = loaded_kind parse_int source {s = s} e₁ in
    let (is_demo, is_kind, made) = session_gates (record s { mode = mode }) {r = r} e₂ in
    (
      is_demo,
      or_none-eq-some (source "MT5_ACCOUNT_KIND") {s = "DEMO"} (sym from_kind ∙ is_kind),
      made,
    )
