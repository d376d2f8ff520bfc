-- ===== src/Tests/Executors.antt =====
-- mt5_adapter/ and mcp_adapter/client.py at concrete inputs.
use mt5_mcp_trading_framewor.Common.{
  ◌≡◌, ◌⊎◌, refl, false, none, some, List, [], ◌∷◌, any, String, str_eq,
}
use mt5_mcp_trading_framewor.Common.Outcome.{Error, raised, not_demo_account}
use mt5_mcp_trading_framewor.Float.Fixed.{Fixed, fixed_float}
use mt5_mcp_trading_framewor.Domain.{market_order}
use mt5_mcp_trading_framewor.State.Models.{ReconciliationReport, closed}
use mt5_mcp_trading_framewor.State.Store.{lookup}
use mt5_mcp_trading_framewor.Mcp.{authorize_call, classification_of, build_metatrader_tool_registry}
use mt5_mcp_trading_framewor.Mcp.Client.{McpClient, call_tool}
use mt5_mcp_trading_framewor.Mcp.Client.Laws.{call_tool_refused}
use mt5_mcp_trading_framewor.Adapter.Library.{int_of}
use mt5_mcp_trading_framewor.Adapter.Response.{parse_trade_response, done}
use mt5_mcp_trading_framewor.Adapter.Response.Laws.{
  parse_trade_response_fields, parse_trade_response-done, IsExecuted,
}
use mt5_mcp_trading_framewor.Adapter.Executor.{McpOrderExecutor, Machine}
use mt5_mcp_trading_framewor.Adapter.Executor.Posture.{explain_unknown_real}
use mt5_mcp_trading_framewor.Adapter.Executor.Placing.{submission_of, order_ticket}
use mt5_mcp_trading_framewor.Adapter.Executor.Submit.{submit, prepare, market_done}
use mt5_mcp_trading_framewor.Adapter.Executor.Manage.{
  cancel, close_position, close_order, closed_result,
}
use mt5_mcp_trading_framewor.Adapter.Executor.Market.{MarketEnd, before_stops, market_done_lem}
use mt5_mcp_trading_framewor.Adapter.Executor.Submitted.{SubmitEnd}
use mt5_mcp_trading_framewor.Adapter.Executor.Reads.{ReadsKeep}
use mt5_mcp_trading_framewor.Adapter.Executor.Permits.{CanSubmit, CanTouch}
use mt5_mcp_trading_framewor.Adapter.Executor.Refusals.{submit_lem, refused_calls, refused_account}
use mt5_mcp_trading_framewor.Adapter.Executor.Endings.{ManageEnd, close_order_lem}
use mt5_mcp_trading_framewor.Adapter.Executor.Explained.{explain_unknown_real_other}
use mt5_mcp_trading_framewor.Tests.Records.{stored, full_folder}
use mt5_mcp_trading_framewor.Tests.Desk.{
  done_reply, failed_reply, library, answer, desk, market_plan, done_response,
}

abbrev idle : Machine (List String) Fixed
idle = ([], [])

submit_lem_example :
    ((¬ CanSubmit (prepare desk idle).0)
      × ((e : Error) × (submit desk market_plan idle ≡ (raised e, (prepare desk idle).1))))
    ⊎ (CanSubmit (prepare desk idle).0
        × SubmitEnd desk market_order market_plan
            (prepare desk idle).1.1
            (submit desk market_plan idle))
submit_lem_example = submit_lem desk market_plan idle

market_done_lem_example :
    MarketEnd desk market_plan done_response
      (submission_of market_plan done_response 7 100_000_000_000)
      []
      (before_stops desk market_plan 7 [])
      (market_done desk market_plan done_response idle)
unfolding order_ticket int_of
market_done_lem_example = market_done_lem desk market_plan done_response 7 idle refl

-- no market order was sent
abbrev IsQuiet : List String → Type 0
IsQuiet calls = any (λ name. str_eq name "place_market_order") calls ≡ false

desk_reads : ReadsKeep desk IsQuiet
unfolding call_tool authorize_call classification_of
desk_reads = record {
  positions = λ symbol magic calls h. h;
  orders = λ symbol magic calls h. h;
  account_state = λ calls h. h;
  time = λ calls h. h;
  deals = λ arguments calls h. h;
}

refused_calls_example :
    (IsQuiet (submit desk market_plan idle).1.0 ⊎ CanSubmit (prepare desk idle).0)
    × (IsQuiet (cancel desk 7 idle).1.0 ⊎ CanTouch 7 (prepare desk idle).0)
    × (IsQuiet (close_position desk 7 none idle).1.0 ⊎ CanTouch 7 (prepare desk idle).0)
refused_calls_example = refused_calls desk IsQuiet desk_reads market_plan 7 none idle refl

-- an account whose kind is not known
abbrev stranger : McpOrderExecutor (List String) Fixed
stranger = record desk { mt5_account_kind = none }

refused_account_example :
    (submit stranger market_plan idle ≡ (raised not_demo_account, idle))
    × (cancel stranger 7 idle ≡ (raised not_demo_account, idle))
    × (close_position stranger 7 none idle ≡ (raised not_demo_account, idle))
refused_account_example = refused_account stranger market_plan 7 none idle (λ h. cc)

close_order_lem_example :
    ManageEnd desk 42 closed "close confirmed via McpOrderExecutor.close_position()" full_folder
      stored
      (closed_result 42)
      (close_order desk 42 ([], full_folder))
unfolding lookup full_folder
close_order_lem_example = close_order_lem desk 42 stored [] full_folder refl

abbrev unknown_nine : ReconciliationReport
unknown_nine = record { matched = []; local_only = 42 ∷ []; unknown_real = 9 ∷ [] }

explain_unknown_real_other_example :
    lookup 9 (explain_unknown_real desk unknown_nine (stored ∷ []) ([], full_folder)).1.1
    ≡ lookup 9 full_folder
explain_unknown_real_other_example =
    explain_unknown_real_other desk unknown_nine (stored ∷ []) 9 refl ([], full_folder)

parse_trade_response_fields_example :
    parse_trade_response library "done" ≡ parse_trade_response library "failed"
parse_trade_response_fields_example =
    parse_trade_response_fields library "done" "failed" done_reply failed_reply refl refl refl refl

parse_trade_response-done_example : IsExecuted library "done"
unfolding parse_trade_response done int_of
parse_trade_response-done_example =
    parse_trade_response-done library "done" {response = done_response} refl refl

-- the client of a session that may not trade
abbrev reader : McpClient (List String) Fixed
reader = record { registry = build_metatrader_tool_registry false; session = some answer }

call_tool_refused_example :
    (e : Error) × (call_tool reader "place_market_order" [] [] ≡ (raised e, []))
call_tool_refused_example = call_tool_refused reader "place_market_order" [] false [] refl refl
