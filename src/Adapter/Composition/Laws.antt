-- ===== src/Adapter/Composition/Laws.antt =====
-- Proofs about execution/composition.py: the executor of a session, with its reader of the account.
use mt5_mcp_trading_framewor.Common.{ℕ, ◌≡◌, ◌⊎◌, refl, true, Option, String, subst}
use mt5_mcp_trading_framewor.Common.Action.{◌>>=◌, pure, lift, attempt, bind_returned}
use mt5_mcp_trading_framewor.Common.Outcome.{ok}
use mt5_mcp_trading_framewor.Float.{Float}
use mt5_mcp_trading_framewor.Domain.{OrderPlan}
use mt5_mcp_trading_framewor.Config.{Settings, session_registry}
use mt5_mcp_trading_framewor.Mcp.{ToolRegistry, read_only_tools}
use mt5_mcp_trading_framewor.Mcp.Laws.{listed}
use mt5_mcp_trading_framewor.Mcp.Client.{Arguments}
use mt5_mcp_trading_framewor.Mcp.Client.Laws.{call_tool-Preserves}
use mt5_mcp_trading_framewor.Adapter.Account.{mcp_account_reader}
use mt5_mcp_trading_framewor.Adapter.Account.Laws.{
  get_account_state-Preserves, get_positions-Preserves, get_orders-Preserves,
}
use mt5_mcp_trading_framewor.Adapter.Composition.{
  Surroundings, executor_with, checked, demo_execution_session,
}
use mt5_mcp_trading_framewor.Adapter.Executor.{McpOrderExecutor, Machine}
use mt5_mcp_trading_framewor.Adapter.Executor.Permits.{CanSubmit, CanTouch}
use mt5_mcp_trading_framewor.Adapter.Executor.Posture.{require_demo_account, informational}
use mt5_mcp_trading_framewor.Adapter.Executor.Reads.{ReadsKeep}
use mt5_mcp_trading_framewor.Adapter.Executor.Refusals.{refused_calls}
use mt5_mcp_trading_framewor.Adapter.Executor.Submit.{prepare, submit}
use mt5_mcp_trading_framewor.Adapter.Executor.Manage.{cancel, close_position}

value_of : {A : Type 0} {a b : A} → ok a ≡ ok b → a ≡ b
value_of h = cc

module _ {W F : Type 0} ⦃f : Float F⦄ (outer : Surroundings W F) where
  -- an executor that a session gives is the one with the account kind of the settings
  session_executor :
      (settings : Settings) (w : W) {executor : McpOrderExecutor W F}
      → (demo_execution_session outer settings w).0 ≡ ok executor
      → (registry : ToolRegistry) × (executor_with outer settings.mt5_account_kind registry
          ≡ executor)
  unfolding demo_execution_session
  session_executor settings w h =
      let rest = λ (registry : ToolRegistry).
        checked outer (executor_with outer settings.mt5_account_kind registry) in
      let (registry, _, h1) = bind_returned (lift (session_registry settings)) rest w h in
      let executor' = executor_with outer settings.mt5_account_kind registry in
      let (_, _, h2) =
        bind_returned (attempt (require_demo_account executor') >>= informational executor')
          (λ _. pure executor') w h1 in
      (registry, value_of h2)

  module _ (P : W → Type 0) where
    -- the tools that are registered as READ_ONLY, and the clock, leave `P` as it was
    pub record OuterKeeps : Type 0 where
      pub tools :
          (name : String) (arguments : Arguments F)
          → listed name read_only_tools ≡ true
          → (w : W) → P w
          → P (outer.session name arguments w).1
      pub time : (w : W) → P w → P (outer.now w).1

    executor_with-ReadsKeep :
        OuterKeeps
        → (kind : Option String) (registry : ToolRegistry)
        → ReadsKeep (executor_with outer kind registry) P
    unfolding executor_with mcp_account_reader
    executor_with-ReadsKeep keeps kind registry = record {
      positions = get_positions-Preserves P outer.lib registry outer.session keeps.tools;
      orders = get_orders-Preserves P outer.lib registry outer.session keeps.tools;
      account_state = get_account_state-Preserves P outer.lib registry outer.session keeps.tools;
      time = keeps.time;
      deals = λ arguments.
          call_tool-Preserves P outer.session registry "get_deals" arguments
            (keeps.tools "get_deals" arguments refl);
    }

    -- what the three methods of an executor leave as it was without the posture for them
    abbrev pub IsRestrained : McpOrderExecutor W F → Type 0
    IsRestrained executor =
        (plan : OrderPlan F) (ticket : ℕ) (volume : Option F) (s : Machine W F)
        → P s.0
        → (P (submit executor plan s).1.0 ⊎ CanSubmit (prepare executor s).0)
          × (P (cancel executor ticket s).1.0 ⊎ CanTouch ticket (prepare executor s).0)
          × (P (close_position executor ticket volume s).1.0
              ⊎ CanTouch ticket (prepare executor s).0)

    -- The executor of a trading session reads the account over the session's own client. If the tools
    -- registered as READ_ONLY and the clock leave something of the outside as it was, then so does a
    -- submission unless the posture is NORMAL, and a cancellation or a closing unless the posture is
    -- NORMAL or it is MANAGE_ONLY and the ticket has an open record.
    pub demo_execution_session_refused :
        OuterKeeps
        → (settings : Settings) (w : W) (executor : McpOrderExecutor W F)
        → (demo_execution_session outer settings w).0 ≡ ok executor
        → (plan : OrderPlan F) (ticket : ℕ) (volume : Option F) (s : Machine W F) → P s.0
        → (P (submit executor plan s).1.0 ⊎ CanSubmit (prepare executor s).0)
          × (P (cancel executor ticket s).1.0 ⊎ CanTouch ticket (prepare executor s).0)
          × (P (close_position executor ticket volume s).1.0
              ⊎ CanTouch ticket (prepare executor s).0)
    demo_execution_session_refused keeps settings w executor h =
        let (registry, same) = session_executor settings w h in
        subst IsRestrained same (
          refused_calls (executor_with outer settings.mt5_account_kind registry) P
            (executor_with-ReadsKeep keeps settings.mt5_account_kind registry))
